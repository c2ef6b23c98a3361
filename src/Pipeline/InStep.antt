-- ===== src/Pipeline/InStep.antt =====
-- The portfolio of the pipeline and the positions of the broker stay in step.
use iron_spyder.Prelude.{
  All, ℕ, suc, ◌≡◌, ◌<◌, sym, ◌∙◌, inl, inr, List, [], ◌∷◌, ◌==◌, arith, Bool-cases,
}
use iron_spyder.Domain.Execution.{Position}
use iron_spyder.Risk.Portfolio.{Portfolio, replace_position, add_position}
use iron_spyder.Execution.PaperBroker.{insert}
use iron_spyder.Pipeline.Mirror.{
  Like, Mirrors, Absent, Distinct, Held, Mirrors-mark, Mirrors-settle, Mirrors-add,
  Distinct-replace, Distinct-add,
}

-- `uuid4` returns a new identifier each time.
abbrev pub IsInjective : (ℕ → ℕ) → Type 0
IsInjective ids = (i j : ℕ) → ids i ≡ ids j → i ≡ j

module _ {W : Type 0} where
  -- The identifiers of the positions are among the first `n`.
  abbrev pub Issued : (ℕ → ℕ) → ℕ → Portfolio W → Type 0
  Issued ids n ps = All (λ p. (k : ℕ) × (k < n) × (p.position_id ≡ ids k)) ps

  Issued-suc : (ids : ℕ → ℕ) (n : ℕ) (ps : Portfolio W) → Issued ids n ps → Issued ids (suc n) ps
  Issued-suc ids n [] h = tt
  Issued-suc ids n (p ∷ ps) ((k, low, e), h) = ((k, omega arith, e), Issued-suc ids n ps h)

  Issued-Absent :
      (ids : ℕ → ℕ) (n : ℕ) (ps : Portfolio W)
      → IsInjective ids
      → Issued ids n ps
      → Absent (ids n) ps
  Issued-Absent ids n [] g h = tt
  Issued-Absent ids n (p ∷ ps) g ((k, low, e), h) = (
    (λ same. (let hit = g k n (sym e ∙ same) in omega (arith, hit, low))),
    Issued-Absent ids n ps g h,
  )

  Issued-replace :
      (ids : ℕ → ℕ) (n id : ℕ) (c : Position W) (ps : Portfolio W)
      → c.position_id ≡ id
      → Issued ids n ps
      → Issued ids n (replace_position id c ps)
  unfolding replace_position
  Issued-replace ids n id c [] e h = tt
  Issued-replace ids n id c (x ∷ ps) e ((k, low, own), h) =
      elim (Bool-cases (x.position_id == id)) [
        | inl same ↦
            let moved : c.position_id ≡ x.position_id = ground arith in
            rw same ((k, low, moved ∙ own), Issued-replace ids n id c ps e h)
        | inr other ↦ rw other ((k, low, own), Issued-replace ids n id c ps e h)
      ]

  Issued-add :
      (ids : ℕ → ℕ) (n : ℕ) (p : Position W) (ps : Portfolio W)
      → p.position_id ≡ ids n
      → Issued ids n ps
      → Issued ids (suc n) (add_position p ps)
  Issued-add ids n p [] e h = ((n, omega arith, e), tt)
  Issued-add ids n p (x ∷ ps) e ((k, low, own), h) =
      ((k, omega arith, own), Issued-add ids n p ps e h)

  -- What the invariant is about, apart from the pipeline that holds it.
  pub record InStep (ids : ℕ → ℕ) (n : ℕ) (ps : Portfolio W) (m : List (ℕ × Position W))
      : Type 0 where
    pub mirrored : Mirrors ps m
    pub distinct : Distinct ps
    pub issued : Issued ids n ps
    pub injective : IsInjective ids

  pub InStep-suc :
      (ids : ℕ → ℕ) (n : ℕ) (ps : Portfolio W) (m : List (ℕ × Position W))
      → InStep ids n ps m
      → InStep ids (suc n) ps m
  InStep-suc ids n ps m v = record {
    mirrored = v.mirrored;
    distinct = v.distinct;
    issued = Issued-suc ids n ps v.issued;
    injective = v.injective;
  }

  pub InStep-mark :
      (ids : ℕ → ℕ) (n : ℕ) (ps : Portfolio W) (m : List (ℕ × Position W)) (p c : Position W)
      → Like p c
      → Held p ps
      → InStep ids n ps m
      → InStep ids n (replace_position p.position_id c ps) m
  InStep-mark ids n ps m p c like h v = record {
    mirrored = Mirrors-mark p c ps m like h v.distinct v.mirrored;
    distinct = Distinct-replace p.position_id c ps (sym like.same_id) v.distinct;
    issued = Issued-replace ids n p.position_id c ps (sym like.same_id) v.issued;
    injective = v.injective;
  }

  pub InStep-settle :
      (ids : ℕ → ℕ) (n : ℕ) (ps : Portfolio W) (m : List (ℕ × Position W)) (p c : Position W)
      → p.position_id ≡ c.position_id
      → Held p ps
      → InStep ids n ps m
      → InStep ids n (replace_position p.position_id c ps) (insert c.position_id c m)
  InStep-settle ids n ps m p c e h v = record {
    mirrored = Mirrors-settle p c ps m e h v.distinct v.mirrored;
    distinct = Distinct-replace p.position_id c ps (sym e) v.distinct;
    issued = Issued-replace ids n p.position_id c ps (sym e) v.issued;
    injective = v.injective;
  }

  pub InStep-add :
      (ids : ℕ → ℕ) (n : ℕ) (ps : Portfolio W) (m : List (ℕ × Position W)) (p : Position W)
      → p.position_id ≡ ids n
      → InStep ids n ps m
      → InStep ids (suc n) (add_position p ps) (insert p.position_id p m)
  InStep-add ids n ps m p e v =
      let fresh : Absent p.position_id ps =
        rw (sym e) at (Issued-Absent ids n ps v.injective v.issued) in
      record {
        mirrored = Mirrors-add p ps m fresh v.mirrored;
        distinct = Distinct-add p ps fresh v.distinct;
        issued = Issued-add ids n p ps e v.issued;
        injective = v.injective;
      }
