-- ===== src/IdFactory/Race.antt =====
-- Two calls of NewUserID in service/idfactory/sequence.go at the same time: it takes no lock, so that
-- the calls take turns at each read and each write of the counter.
use Prim.Native.Nat.{◌%◌, ◌^◌}
use native.Mathlib.Nat.{mod-eq_of_lt}
use userd.Common.{
  ℕ, ◌+◌, ◌≤◌, ◌<◌, String, ◌≡◌, refl, ap, sym, ◌⊎◌, inl, inr, Bool, true, false, List, [], ◌∷◌,
  arith, ltb, Bool-cases,
}
use mathlib.Core.Path.{subst}
use userd.IdFactory.{SequenceFactory}
use userd.IdFactory.Laws.{used_format}

-- How far a call is: `seq.Sequence++` reads and then writes, and Sprintf reads again.
pub data Call : Type 0 where
  begun written : Call
  holding : (read : ℕ) → Call
  returned : (id : String) → Call

pub record Racing : Type 0 where
  pub seq : SequenceFactory
  pub first : Call
  pub second : Call

module _ (width : ℕ) (sprintf : (format : String) → ℕ → String) where
  unfoldable pub advance : Call → SequenceFactory → Call × SequenceFactory
  advance begun seq = (holding seq.sequence, seq)
  advance (holding n) seq = (written, record seq { sequence = (n + 1) % 2 ^ width })
  advance written seq = (returned (sprintf (used_format seq.format) seq.sequence), seq)
  advance (returned id) seq = (returned id, seq)

  -- The calls advance in the order of a schedule, the first where it says true.
  unfoldable pub race : List Bool → Racing → Racing
  race [] r = r
  race (true ∷ schedule) r =
      let (call, seq) = advance r.first r.seq in
      race schedule (record r { first = call; seq = seq })
  race (false ∷ schedule) r =
      let (call, seq) = advance r.second r.seq in
      race schedule (record r { second = call; seq = seq })

  abbrev pub both_begun : SequenceFactory → Racing
  both_begun seq = record { seq = seq; first = begun; second = begun }

-- Whether a call has written.
abbrev done : Call → ℕ
done begun = 0
done (holding n) = 0
done written = 1
done (returned id) = 1

module _ (width : ℕ) (sprintf : (format : String) → ℕ → String) (format : String) (start : ℕ)
    (small : start + 2 < 2 ^ width) where
  -- The two ids behind the counter.
  abbrev pub IsNext : String → Type 0
  IsNext id =
      (id ≡ sprintf (used_format format) (start + 1))
      ⊎ (id ≡ sprintf (used_format format) (start + 2))

  abbrev Fits : Call → (sequence others : ℕ) → Type 0
  Fits begun c d = Unit {0}
  Fits (holding n) c d = (start ≤ n) × (n ≤ start + d)
  Fits written c d = start + 1 ≤ c
  Fits (returned id) c d = IsNext id

  -- What holds of the counter and of both calls.
  record Bounded (c : ℕ) (t o : Call) : Type 0 where
    least : start ≤ c
    most : c ≤ start + (done t + done o)
    own : Fits t c (done o)
    other : Fits o c (done t)

  sprintf-IsNext : (c : ℕ) → start + 1 ≤ c → c ≤ start + 2 → IsNext (sprintf (used_format format) c)
  sprintf-IsNext c low high = elim (Bool-cases (ltb c (start + 2))) [
    | inl less ↦
        let first : c ≡ start + 1 = ground arith in inl (ap (sprintf (used_format format)) first)
    | inr not_less ↦
        let second : c ≡ start + 2 = ground arith in inr (ap (sprintf (used_format format)) second)
  ]

  done_most : (t : Call) → done t ≤ 1
  done_most begun = omega arith
  done_most (holding n) = omega arith
  done_most written = omega arith
  done_most (returned id) = omega arith

  -- The other call, when one has written.
  after_write : (o : Call) (c n : ℕ) → start ≤ n → Fits o c 0 → Fits o (n + 1) 1
  after_write begun c n low fits = tt
  after_write (holding m) c n low (h, k) = (h, omega arith)
  after_write written c n low fits = omega arith
  after_write (returned id) c n low fits = fits

  abbrev at : ℕ → SequenceFactory
  at c = record { format = format; sequence = c }

  -- The counter, once a call has advanced.
  advance-Bounded :
      (c : ℕ) (t o : Call)
      → Bounded c t o
      → (c' : ℕ) × ((advance width sprintf t (at c)).1 ≡ at c')
        × Bounded c' (advance width sprintf t (at c)).0 o
  unfolding advance
  advance-Bounded c begun o b =
      let most = b.most in
      (
        c,
        refl,
        record { least = b.least; most = b.most; own = (b.least, omega arith); other = b.other },
      )
  advance-Bounded c (holding n) o b =
      let (low, high) = b.own in
      let once = done_most o in
      (
        n + 1,
        ap at (mod-eq_of_lt (omega arith)),
        record {
          least = omega arith;
          most = omega arith;
          own = omega arith;
          other = after_write o c n low b.other;
        },
      )
  advance-Bounded c written o b =
      let most = b.most in
      let once = done_most o in
      (
        c,
        refl,
        record {
          least = b.least;
          most = b.most;
          own = sprintf-IsNext c b.own (omega arith);
          other = b.other;
        },
      )
  advance-Bounded c (returned id) o b = (c, refl, b)

  swapped : (c : ℕ) (t o : Call) → Bounded c t o → Bounded c o t
  swapped c t o b =
      let most = b.most in
      record { least = b.least; most = omega arith; own = b.other; other = b.own }

  -- Where a schedule leads from a counter and two calls.
  abbrev Ends : List Bool → SequenceFactory → Call → Call → Type 0
  Ends schedule seq t o =
      (c : ℕ) × Bounded c
        (race width sprintf schedule (record { seq = seq; first = t; second = o })).first
        (race width sprintf schedule (record { seq = seq; first = t; second = o })).second

  race-Bounded :
      (schedule : List Bool) (c : ℕ) (t o : Call) → Bounded c t o → Ends schedule (at c) t o
  unfolding race
  race-Bounded [] c t o b = (c, b)
  race-Bounded (true ∷ schedule) c t o b =
      let (c', same, b') = advance-Bounded c t o b in
      subst (λ seq. Ends schedule seq (advance width sprintf t (at c)).0 o) (sym same)
        (race-Bounded schedule c' _ o b')
  race-Bounded (false ∷ schedule) c t o b =
      let (c', same, b') = advance-Bounded c o t (swapped c t o b) in
      subst (λ seq. Ends schedule seq t (advance width sprintf o (at c)).0) (sym same)
        (race-Bounded schedule c' t _ (swapped c' _ t b'))

  -- Both calls read, then both write, and then both read again.
  abbrev in_turns : List Bool
  in_turns = true ∷ false ∷ true ∷ false ∷ true ∷ false ∷ []

  -- Two calls of NewUserID at the same time, which take turns in whatever order, where the counter does
  -- not wrap around: a call that returns gives one of the two ids behind the counter. There is an order
  -- in which both calls return one id.
  pub race-IsNext :
      (schedule : List Bool) (id : String)
      → (race width sprintf schedule (both_begun width sprintf (at start))).first ≡ returned id
      → IsNext id
        × ((order : List Bool) × ((one : String) × (race width sprintf order
                  (both_begun width sprintf (at start))
                ≡ record { seq = at (start + 1); first = returned one; second = returned one })))
  unfolding race advance
  race-IsNext schedule id e =
      let (c, b) =
        race-Bounded schedule start begun begun
          (record { least = omega arith; most = omega arith; own = tt; other = tt }) in
      let room : start + 1 < 2 ^ width = omega arith in
      (
        subst
            (λ call.
              Fits call c
                (done (race width sprintf schedule (both_begun width sprintf (at start))).second))
            e b.own,
        (in_turns, (sprintf (used_format format) (start + 1), rw (mod-eq_of_lt room) refl)),
      )
