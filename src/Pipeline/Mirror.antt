-- ===== src/Pipeline/Mirror.antt =====
-- The pipeline's portfolio and the broker's dictionary of positions, entry by entry.
use iron_spyder.Prelude.{
  All, ℕ, ◌≡◌, ◌≢◌, refl, sym, ◌∙◌, ◌⊎◌, inl, inr, true, false, List, [], ◌∷◌, ◌==◌, arith,
  Bool-cases,
}
use iron_spyder.Domain.Execution.{Position}
use iron_spyder.Risk.Portfolio.{Portfolio, replace_position, add_position}
use iron_spyder.Execution.PaperBroker.{insert}

same_test : (a b : ℕ) → a ≡ b → (a == b) ≡ true
same_test a b h = ground arith

differ_test : (a b : ℕ) → a ≢ b → (a == b) ≡ false
differ_test a b h = ground arith

module _ {W : Type 0} where
  -- The same position, up to its mark.
  pub record Like (p q : Position W) : Type 0 where
    pub same_id : p.position_id ≡ q.position_id
    pub same_contracts : p.contracts ≡ q.contracts
    pub same_strategy : p.strategy ≡ q.strategy
    pub same_closing : p.closed_at ≡ q.closed_at

  pub Like-refl : (p : Position W) → Like p p
  Like-refl p = record {
    same_id = refl;
    same_contracts = refl;
    same_strategy = refl;
    same_closing = refl;
  }

  Like-swap : (p c x q : Position W) → Like p c → Like p x → Like x q → Like c q
  Like-swap p c x q h k l = record {
    same_id = sym h.same_id ∙ (k.same_id ∙ l.same_id);
    same_contracts = sym h.same_contracts ∙ (k.same_contracts ∙ l.same_contracts);
    same_strategy = sym h.same_strategy ∙ (k.same_strategy ∙ l.same_strategy);
    same_closing = sym h.same_closing ∙ (k.same_closing ∙ l.same_closing);
  }

  abbrev pub Mirrors : Portfolio W → List (ℕ × Position W) → Type 0
  Mirrors [] [] = Unit
  Mirrors [] (_ ∷ _) = ⊥
  Mirrors (_ ∷ _) [] = ⊥
  Mirrors (p ∷ ps) ((k, q) ∷ m) = ((k ≡ p.position_id) × Like p q) × Mirrors ps m

  abbrev pub Absent : ℕ → Portfolio W → Type 0
  Absent id ps = All (λ p. p.position_id ≢ id) ps

  abbrev pub Distinct : Portfolio W → Type 0
  Distinct [] = Unit
  Distinct (p ∷ ps) = Absent p.position_id ps × Distinct ps

  -- A position of the portfolio, up to its mark.
  abbrev pub Held : Position W → Portfolio W → Type 0
  Held p [] = ⊥
  Held p (x ∷ ps) = Like p x ⊎ Held p ps

  Held-Absent : (p : Position W) (ps : Portfolio W) → Held p ps → Absent p.position_id ps → ⊥
  Held-Absent p [] h a = h
  Held-Absent p (x ∷ ps) (inl like) (other, a) = other (sym like.same_id)
  Held-Absent p (x ∷ ps) (inr h) (other, a) = Held-Absent p ps h a

  replace-Absent :
      (id : ℕ) (c : Position W) (ps : Portfolio W) → Absent id ps → replace_position id c ps ≡ ps
  unfolding replace_position
  replace-Absent id c [] a = refl
  replace-Absent id c (x ∷ ps) (other, a) = elim (Bool-cases (x.position_id == id)) [
    | inl same ↦ ground arith
    | inr differs ↦ rw (differs, replace-Absent id c ps a) refl
  ]

  -- A new mark.
  pub Mirrors-mark :
      (p c : Position W) (ps : Portfolio W) (m : List (ℕ × Position W))
      → Like p c
      → Held p ps
      → Distinct ps
      → Mirrors ps m
      → Mirrors (replace_position p.position_id c ps) m
  unfolding replace_position
  Mirrors-mark p c [] m like h d r = absurd h
  Mirrors-mark p c (x ∷ ps) [] like h d r = absurd r
  Mirrors-mark p c (x ∷ ps) ((k, q) ∷ m) like (inl here) (a, d) ((key, own), r) =
      let gone : Absent p.position_id ps = rw (sym here.same_id) at a in
      rw
        (
          same_test x.position_id p.position_id (sym here.same_id),
          replace-Absent p.position_id c ps gone,
        )
        ((key ∙ (sym here.same_id ∙ like.same_id), Like-swap p c x q like here own), r)
  Mirrors-mark p c (x ∷ ps) ((k, q) ∷ m) like (inr later) (a, d) ((key, own), r) =
      rw (differ_test x.position_id p.position_id (λ e. Held-Absent p ps later (rw e at a)))
        ((key, own), Mirrors-mark p c ps m like later d r)

  -- The same new entry on both sides.
  pub Mirrors-settle :
      (p c : Position W) (ps : Portfolio W) (m : List (ℕ × Position W))
      → p.position_id ≡ c.position_id
      → Held p ps
      → Distinct ps
      → Mirrors ps m
      → Mirrors (replace_position p.position_id c ps) (insert c.position_id c m)
  unfolding replace_position insert
  Mirrors-settle p c [] m e h d r = absurd h
  Mirrors-settle p c (x ∷ ps) [] e h d r = absurd r
  Mirrors-settle p c (x ∷ ps) ((k, q) ∷ m) e (inl here) (a, d) ((key, own), r) =
      let gone : Absent p.position_id ps = rw (sym here.same_id) at a in
      rw
        (
          same_test x.position_id p.position_id (sym here.same_id),
          replace-Absent p.position_id c ps gone,
          same_test k c.position_id (key ∙ (sym here.same_id ∙ e)),
        )
        ((key ∙ (sym here.same_id ∙ e), Like-refl c), r)
  Mirrors-settle p c (x ∷ ps) ((k, q) ∷ m) e (inr later) (a, d) ((key, own), r) =
      let other : x.position_id ≢ p.position_id = λ h. Held-Absent p ps later (rw h at a) in
      rw
        (
          differ_test x.position_id p.position_id other,
          differ_test k c.position_id (λ h. other (sym key ∙ (h ∙ sym e))),
        )
        ((key, own), Mirrors-settle p c ps m e later d r)

  pub Mirrors-add :
      (p : Position W) (ps : Portfolio W) (m : List (ℕ × Position W))
      → Absent p.position_id ps
      → Mirrors ps m
      → Mirrors (add_position p ps) (insert p.position_id p m)
  unfolding insert
  Mirrors-add p [] [] a r = ((refl, Like-refl p), tt)
  Mirrors-add p [] (_ ∷ _) a r = absurd r
  Mirrors-add p (x ∷ ps) [] a r = absurd r
  Mirrors-add p (x ∷ ps) ((k, q) ∷ m) (other, a) ((key, own), r) =
      rw (differ_test k p.position_id (λ h. other (sym key ∙ h)))
        ((key, own), Mirrors-add p ps m a r)

  Absent-replace :
      (j id : ℕ) (c : Position W) (ps : Portfolio W)
      → c.position_id ≡ id
      → Absent j ps
      → Absent j (replace_position id c ps)
  unfolding replace_position
  Absent-replace j id c [] e a = tt
  Absent-replace j id c (x ∷ ps) e (other, a) = elim (Bool-cases (x.position_id == id)) [
    | inl same ↦ rw same ((λ h. other (ground arith)), Absent-replace j id c ps e a)
    | inr differs ↦ rw differs (other, Absent-replace j id c ps e a)
  ]

  pub Distinct-replace :
      (id : ℕ) (c : Position W) (ps : Portfolio W)
      → c.position_id ≡ id
      → Distinct ps
      → Distinct (replace_position id c ps)
  unfolding replace_position
  Distinct-replace id c [] e d = tt
  Distinct-replace id c (x ∷ ps) e (a, d) = elim (Bool-cases (x.position_id == id)) [
    | inl same ↦
        let moved : x.position_id ≡ c.position_id = ground arith in
        rw same
          (Absent-replace c.position_id id c ps e (rw moved at a), Distinct-replace id c ps e d)
    | inr differs ↦
        rw differs (Absent-replace x.position_id id c ps e a, Distinct-replace id c ps e d)
  ]

  pub Distinct-add :
      (p : Position W) (ps : Portfolio W)
      → Absent p.position_id ps
      → Distinct ps
      → Distinct (add_position p ps)
  Distinct-add p [] a d = (tt, tt)
  Distinct-add p (x ∷ ps) (other, a) (b, d) =
      (grown x.position_id (λ h. other (sym h)) ps b, Distinct-add p ps a d)
    where
      grown :
          (j : ℕ)
          → p.position_id ≢ j
          → (ys : Portfolio W) → Absent j ys
          → Absent j (add_position p ys)
      grown j n [] b = (n, tt)
      grown j n (y ∷ ys) (o, b) = (o, grown j n ys b)

  -- Another position is held as before.
  pub Held-replace :
      (p c : Position W) (id : ℕ) (ps : Portfolio W)
      → p.position_id ≢ id
      → Held p ps
      → Held p (replace_position id c ps)
  unfolding replace_position
  Held-replace p c id [] other h = h
  Held-replace p c id (x ∷ ps) other (inl here) =
      rw (differ_test x.position_id id (λ e. other (here.same_id ∙ e))) (inl here)
  Held-replace p c id (x ∷ ps) other (inr later) = inr (Held-replace p c id ps other later)

  -- The position that took the place of a held one.
  pub Held-self :
      (p c : Position W) (ps : Portfolio W)
      → Held p ps
      → Held c (replace_position p.position_id c ps)
  unfolding replace_position
  Held-self p c [] h = h
  Held-self p c (x ∷ ps) (inl here) =
      rw (same_test x.position_id p.position_id (sym here.same_id)) (inl (Like-refl c))
  Held-self p c (x ∷ ps) (inr later) = inr (Held-self p c ps later)

  pub Held-Like : (p c : Position W) (ps : Portfolio W) → Like p c → Held p ps → Held c ps
  Held-Like p c [] like h = h
  Held-Like p c (x ∷ ps) like (inl here) = inl (Like-swap p c p x like (Like-refl p) here)
  Held-Like p c (x ∷ ps) like (inr later) = inr (Held-Like p c ps like later)
