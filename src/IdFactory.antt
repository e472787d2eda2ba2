-- ===== src/IdFactory.antt =====
-- service/idfactory: the factories of ids and reset tokens. fmt.Sprintf at a format and a `uint` is a
-- parameter, and so are the width of a `uint` and uuid.New, over the state of its randomness.
pub mod Laws
pub mod Restart
pub mod Race
use Prim.Native.Nat.{◌%◌, ◌^◌}
use userd.Common.{ℕ, ◌+◌, String, ◌==◌, if◌then◌else◌}
use userd.Service.Backends.{IdFactory}

pub record SequenceFactory : Type 0 where
  pub format : String
  pub sequence : ℕ

unfoldable pub new_sequence_factory : String → SequenceFactory
new_sequence_factory format = record { format = format; sequence = 0 }

module _ (width : ℕ) (sprintf : (format : String) → ℕ → String) where
  unfoldable pub new_user_id : SequenceFactory → String × SequenceFactory
  new_user_id seq =
      let sequence = (seq.sequence + 1) % 2 ^ width in
      if seq.format == ""
      then (sprintf "%d" sequence, record seq { sequence = sequence })
      else (sprintf seq.format sequence, record seq { sequence = sequence })

  unfoldable pub new_reset_password_token : SequenceFactory → String × SequenceFactory
  unfolding new_user_id
  new_reset_password_token seq = new_user_id seq

  -- The factory as the service takes it.
  unfoldable pub sequence_factory : IdFactory SequenceFactory
  sequence_factory = record {
    new_user_id = new_user_id;
    new_reset_password_token = new_reset_password_token;
  }

unfoldable pub uuid_factory : {R : Type 0} → (uuid_new : R → String × R) → IdFactory R
uuid_factory uuid_new = record { new_user_id = uuid_new; new_reset_password_token = uuid_new }
