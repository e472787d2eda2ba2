-- ===== src/Storage/Consistency/Unique.antt =====
-- Consistent tables hold no two users with the same email, login name or reset token.
use userd.Common.{String, ◌≡◌, ◌≢◌, sym, ap, ◌∙◌, some}
use userd.User.{User}
use userd.Storage.Interface.{UserCodec, Field, value}
use userd.Storage.Tables.{Tables}
use userd.Storage.Consistency.{user_at, IsConsistent}

-- In consistent tables, two ids whose users share a value of an indexed field that is not empty are
-- the same id.
pub value_unique :
    (json : UserCodec) (t : Tables)
    → IsConsistent json t
    → (f : Field) (i j : String) (u v : User) → user_at json t i ≡ some u
    → user_at json t j ≡ some v
    → value f u ≡ value f v
    → value f u ≢ ""
    → i ≡ j
value_unique json t c f i j u v at_i at_j same filled =
    let first = c.indexed f i u at_i filled in
    let second = c.indexed f j v at_j (λ z. filled (same ∙ z)) in
    let both : some i ≡ some j = sym first ∙ ap (t.entries f) same ∙ second in cc
