-- ===== src/Tests/IdFactory.antt =====
-- The sequence factory with a Sprintf that counts by strokes, and a restart after which Bob takes the
-- id of Ann.
use userd.Common.{
  Bool, true, List, [], ◌∷◌, ℕ, zero, suc, ◌+◌, ◌-◌, String, ◌≡◌, ◌≢◌, refl, sym, ap, ◌∙◌, arith,
  eq_iff,
}
use userd.Errors.Instance.{errgo}
use userd.Exec.{Outcome, ok}
use userd.Storage.Local.{LocalState}
use userd.Storage.Local.Laws.{local_storage}
use userd.Storage.KeyValue.{user_storage}
use userd.Tests.Codec.{codec}
use userd.Storage.Directory.{SameUsers, store}
use userd.Service.Backends.{Dependencies, World}
use userd.IdFactory.{SequenceFactory, new_sequence_factory, sequence_factory}
use userd.IdFactory.Laws.{Draw, an_id, a_token, nth_id, nth_id_distinct}
use userd.IdFactory.Race.{IsNext, race, advance, both_begun, returned, race-IsNext}
use userd.IdFactory.Restart.{
  Creation, IsFilled, made, restarted, create, create_user-new_sequence_factory,
}
use userd.Tests.Success.{nobody}
use userd.Tests.World.{hasher, directory, storable, strokes, start, start-IsValid}

abbrev size : String → ℕ
size String.[] = 0
size (String.◌∷◌ c s) = suc (size s)

size-strokes : (s : String) (n : ℕ) → size (strokes s n) ≡ n + size s
unfolding strokes
size-strokes s zero = omega arith
size-strokes s (suc n) = let rest = size-strokes s n in omega arith

strokes_injective : (s : String) (a b : ℕ) → strokes s a ≡ strokes s b → a ≡ b
strokes_injective s a b e =
    let sizes = sym (size-strokes s a) ∙ ap size e ∙ size-strokes s b in omega arith

-- An id, then tokens.
abbrev draws : ℕ → Draw
draws zero = an_id
draws (suc n) = a_token

nth_id_distinct_example :
    nth_id 64 strokes draws 0 (new_sequence_factory "u")
    ≢ nth_id 64 strokes draws 2 (new_sequence_factory "u")
nth_id_distinct_example =
    nth_id_distinct 64 strokes "u" draws (strokes_injective "u") 0 2 (omega arith) (omega arith)
      (λ e. omega arith)

-- A call that runs alone.
alone :
    (race 64 strokes
      (true ∷ true ∷ true ∷ [])
      (both_begun 64 strokes (new_sequence_factory "u"))).first
    ≡ returned "iu"
unfolding new_sequence_factory race advance strokes
alone = refl

race-IsNext_example :
    IsNext 64 strokes "u" 0 (omega arith) "iu"
    × ((order : List Bool) × ((one : String) × (race 64 strokes order
              (both_begun 64 strokes (new_sequence_factory "u"))
            ≡ record {
              seq = record { format = "u"; sequence = 1 };
              first = returned one;
              second = returned one;
            })))
unfolding new_sequence_factory
race-IsNext_example =
    race-IsNext 64 strokes "u" 0 (omega arith) (true ∷ true ∷ true ∷ []) "iu" alone

-- The first id is "u".
abbrev sprintf : String → ℕ → String
sprintf format n = strokes format (n - 1)

abbrev fresh : World LocalState SequenceFactory ℕ
fresh = record {
  store = start.store;
  ids = new_sequence_factory "u";
  salt = 0;
  clock = 100;
  tasks = [];
}

abbrev dependencies : Dependencies LocalState SequenceFactory ℕ
dependencies = record {
  id_factory = sequence_factory 64 sprintf;
  hasher = hasher;
  user_storage = user_storage errgo codec local_storage;
  marshal_entry = λ e. ok "event";
}

abbrev ann_creation : Creation
ann_creation = record {
  profile_name = "Ann";
  email = "ann@x";
  login_name = "ann";
  password = "secret";
  hash = "#secret";
}

abbrev bob_creation : Creation
bob_creation = record {
  profile_name = "Bob";
  email = "bob@x";
  login_name = "bob";
  password = "word";
  hash = "#word";
}

ann-IsFilled : IsFilled ann_creation
ann-IsFilled = record {
  profile_name = λ e. ground (arith, eq_iff "Ann" "");
  email = λ e. ground (arith, eq_iff "ann@x" "");
  login_name = λ e. ground (arith, eq_iff "ann" "");
  password = λ e. ground (arith, eq_iff "secret" "");
}

bob-IsFilled : IsFilled bob_creation
bob-IsFilled = record {
  profile_name = λ e. ground (arith, eq_iff "Bob" "");
  email = λ e. ground (arith, eq_iff "bob@x" "");
  login_name = λ e. ground (arith, eq_iff "bob" "");
  password = λ e. ground (arith, eq_iff "word" "");
}

u_filled : ◌≢◌ {A = String} "u" ""
u_filled e = ground (arith, eq_iff "u" "")

abbrev call :
    Creation
    → World LocalState SequenceFactory ℕ
    → Outcome String × World LocalState SequenceFactory ℕ
call = create errgo 64 sprintf dependencies directory storable (λ e. ("event", refl))

-- Ann is created with the id "u"; after the restart, Bob is, and Ann is lost.
create_user-new_sequence_factory_example :
    ((call ann_creation fresh).0 ≡ ok "u")
    × SameUsers
        (directory.users (call ann_creation fresh).1.store)
        (store (made "u" ann_creation) (directory.users start.store))
    × ((call bob_creation (restarted "u" 7 200 (call ann_creation fresh).1)).0 ≡ ok "u")
    × SameUsers
        (directory.users
          (call bob_creation (restarted "u" 7 200 (call ann_creation fresh).1)).1.store)
        (store (made "u" bob_creation) (directory.users start.store))
unfolding strokes
create_user-new_sequence_factory_example =
    create_user-new_sequence_factory errgo 64 sprintf dependencies directory storable
      (λ e. ("event", refl)) "u" ann_creation bob_creation fresh 7 200 start-IsValid refl
      (omega arith) u_filled ann-IsFilled bob-IsFilled refl refl
      (λ f id v at _ _. absurd (nobody id v at)) (λ f id v at _ _. absurd (nobody id v at))
