-- ===== src/IdFactory/Laws.antt =====
-- The ids and tokens that the sequence factory gives (service/idfactory/sequence.go).
use Prim.Native.Nat.{◌^◌}
use native.Mathlib.Nat.{mod-eq_of_lt}
use userd.Common.{
  ℕ, zero, suc, ◌+◌, ◌<◌, String, ◌≡◌, ◌≢◌, refl, sym, ap, ◌∙◌, arith, ◌==◌, Bool-cases, inl, inr,
  if◌then◌else◌,
}
use userd.IdFactory.{SequenceFactory, new_sequence_factory, new_user_id, new_reset_password_token}

-- The format that is used.
abbrev pub used_format : String → String
used_format format = if format == "" then "%d" else format

-- A call of the factory: for an id, or for a token.
pub data Draw : Type 0 where
  an_id a_token : Draw

module _ (width : ℕ) (sprintf : (format : String) → ℕ → String) where
  abbrev pub draw : Draw → SequenceFactory → String × SequenceFactory
  draw an_id seq = new_user_id width sprintf seq
  draw a_token seq = new_reset_password_token width sprintf seq

  -- The factory after the first n of some calls, each begun after the one before had returned; and
  -- what the next of them returns.
  abbrev pub drawn : (draws : ℕ → Draw) → ℕ → SequenceFactory → SequenceFactory
  drawn draws zero seq = seq
  drawn draws (suc n) seq = (draw (draws n) (drawn draws n seq)).1

  abbrev pub nth_id : (draws : ℕ → Draw) → ℕ → SequenceFactory → String
  nth_id draws n seq = (draw (draws n) (drawn draws n seq)).0

  pub new_user_id_lem :
      (seq : SequenceFactory)
      → seq.sequence + 1 < 2 ^ width
      → new_user_id width sprintf seq ≡ (
        sprintf (used_format seq.format) (seq.sequence + 1),
        record seq { sequence = seq.sequence + 1 },
      )
  unfolding new_user_id
  new_user_id_lem seq h =
      rw (mod-eq_of_lt h) (elim (Bool-cases (seq.format == "")) [ inl e ↦ rw e | inr e ↦ rw e ])

  next_lem :
      (seq : SequenceFactory)
      → seq.sequence + 1 < 2 ^ width
      → new_user_id width sprintf seq ≡ (
        sprintf (used_format seq.format) (seq.sequence + 1),
        record seq { sequence = suc seq.sequence },
      )
  next_lem seq h =
      new_user_id_lem seq h
      ∙ ap (λ n. (sprintf (used_format seq.format) (seq.sequence + 1), record seq { sequence = n }))
          (plus_one seq.sequence)
    where
      plus_one : (n : ℕ) → n + 1 ≡ suc n
      plus_one n = omega arith

  draw_lem :
      (d : Draw) (seq : SequenceFactory)
      → seq.sequence + 1 < 2 ^ width
      → draw d seq ≡ (
        sprintf (used_format seq.format) (seq.sequence + 1),
        record seq { sequence = suc seq.sequence },
      )
  unfolding new_reset_password_token
  draw_lem an_id seq h = next_lem seq h
  draw_lem a_token seq h = next_lem seq h

module _ (width : ℕ) (sprintf : (format : String) → ℕ → String) (format : String)
    (draws : ℕ → Draw) where
  drawn_lem :
      (n : ℕ)
      → n < 2 ^ width
      → drawn width sprintf draws n (new_sequence_factory format)
        ≡ record { format = format; sequence = n }
  unfolding new_sequence_factory
  drawn_lem zero h = refl
  drawn_lem (suc n) h =
      ap (λ seq. (draw width sprintf (draws n) seq).1) (drawn_lem n (omega arith))
      ∙ ap (λ r. r.1)
          (draw_lem width sprintf (draws n) (record { format = format; sequence = n })
            (omega arith))

  -- What the call after n others returns, as long as the counter does not wrap around.
  nth_id_lem :
      (n : ℕ)
      → n + 1 < 2 ^ width
      → nth_id width sprintf draws n (new_sequence_factory format)
        ≡ sprintf (used_format format) (n + 1)
  nth_id_lem n h =
      ap (λ seq. (draw width sprintf (draws n) seq).0) (drawn_lem n (omega arith))
      ∙ ap (λ r. r.0)
          (draw_lem width sprintf (draws n) (record { format = format; sequence = n }) h)

  -- Calls of one sequence factory, each begun after the one before had returned, give ids and tokens
  -- that all differ from one another, whichever of the calls ask for an id and whichever for a token,
  -- until the counter wraps around, where Sprintf prints different numbers differently.
  pub nth_id_distinct :
      ((a b : ℕ) → sprintf (used_format format) a ≡ sprintf (used_format format) b → a ≡ b)
      → (i j : ℕ) → i + 1 < 2 ^ width
      → j + 1 < 2 ^ width
      → i ≢ j
      → nth_id width sprintf draws i (new_sequence_factory format)
        ≢ nth_id width sprintf draws j (new_sequence_factory format)
  nth_id_distinct prints i j hi hj differ e =
      let next = prints (i + 1) (j + 1) (sym (nth_id_lem i hi) ∙ e ∙ nth_id_lem j hj) in
      differ (omega arith)
