-- ===== src/Template/Variables.antt =====
-- The variables of a body for parseBody and compileBody of
-- backend/src/modules/template/template.engine.ts.
use bravi_ai.Template.Engine.{
  Piece, plain, marker, tokens, ParsedVariable, has_label, add_label, collect, parse_body,
  compile_piece, placeholder, placeholder_or, bracketed,
}
use bravi_ai.Prelude.{
  ℕ, suc, zero, ◌+◌, ◌≤◌, true, false, String, none, some, List, [], ◌∷◌, ◌++◌, ◌≡◌, refl, sym,
  subst, ◌⊎◌, inl, inr, arith, All, length, find_first, Bool-cases, Option-cases, eq_iff,
}
use bravi_ai.Text.{is_empty, trim}

-- The positions are n, n + 1, and so on.
unfoldable pub CountFrom : ℕ → List ParsedVariable → Type 0
CountFrom n [] = Unit
CountFrom n (v ∷ vs) = (v.position ≡ n) × CountFrom (suc n) vs

-- No variable has a label that is empty or that another has.
unfoldable pub HasLabels : List ParsedVariable → Type 0
HasLabels [] = Unit
HasLabels (v ∷ vs) =
    (is_empty v.label ≡ false) × (find_first (has_label v.label) vs ≡ none) × HasLabels vs

CountFrom-append :
    (n : ℕ) (t : String) (vs : List ParsedVariable)
    → CountFrom n vs
    → CountFrom n (vs ++ (record { label = t; position = length vs + n } ∷ []))
unfolding CountFrom
CountFrom-append n t [] h = (ground arith, tt)
CountFrom-append n t (v ∷ vs) h = (
  h.0,
  subst (λ k. CountFrom (suc n) (vs ++ (record { label = t; position = k } ∷ []))) (omega arith)
      (CountFrom-append (suc n) t vs h.1),
)

find_first-append_none :
    (t : String) (x : ParsedVariable) (vs : List ParsedVariable)
    → find_first (has_label t) vs ≡ none
    → has_label t x ≡ false
    → find_first (has_label t) (vs ++ (x ∷ [])) ≡ none
unfolding find_first
find_first-append_none t x [] h e = ground (arith, e)
find_first-append_none t x (v ∷ vs) h e = ground (arith, h, e, find_first-append_none t x vs)

HasLabels-append :
    (x : ParsedVariable) (vs : List ParsedVariable)
    → is_empty x.label ≡ false
    → find_first (has_label x.label) vs ≡ none
    → HasLabels vs
    → HasLabels (vs ++ (x ∷ []))
unfolding HasLabels find_first
HasLabels-append x [] e n h = (e, refl, tt)
HasLabels-append x (v ∷ vs) e n h = (
  h.0,
  find_first-append_none v.label x vs h.1
      (ground (arith, n, eq_iff v.label x.label, eq_iff x.label v.label)),
  HasLabels-append x vs e (ground (arith, n)) h.2,
)

find_first-append :
    (t : String) (vs ws : List ParsedVariable) (v : ParsedVariable)
    → find_first (has_label t) vs ≡ some v
    → find_first (has_label t) (vs ++ ws) ≡ some v
unfolding find_first
find_first-append t [] ws v h = ground (arith, h)
find_first-append t (w ∷ vs) ws v h = ground (arith, h, find_first-append t vs ws v)

find_first-last :
    (x : ParsedVariable) (vs : List ParsedVariable)
    → find_first (has_label x.label) vs ≡ none
    → find_first (has_label x.label) (vs ++ (x ∷ [])) ≡ some x
unfolding find_first
find_first-last x [] h = ground (arith, eq_iff x.label x.label)
find_first-last x (v ∷ vs) h = ground (arith, h, find_first-last x vs)

-- A variable that is found has a position of the count.
find_first-CountFrom :
    (n : ℕ) (t : String) (vs : List ParsedVariable) (v : ParsedVariable)
    → CountFrom n vs
    → find_first (has_label t) vs ≡ some v
    → (n ≤ v.position) × (suc v.position ≤ n + length vs)
unfolding CountFrom find_first
find_first-CountFrom n t [] v c h = ground (arith, h)
find_first-CountFrom n t (w ∷ vs) v c h =
    ground (arith, c, h, find_first-CountFrom (suc n) t vs v c.1)

-- The variables of a body so far: their positions count from 1, and their labels differ.
abbrev pub IsNumbered : List ParsedVariable → Type 0
IsNumbered vs = CountFrom 1 vs × HasLabels vs

-- What a marker of the label t has come to: it is blank, or there is a variable of that label.
abbrev IsListed : String → List ParsedVariable → Type 0
IsListed t vs =
    (is_empty t ≡ true) ⊎ ((v : ParsedVariable) × (find_first (has_label t) vs ≡ some v))

abbrev next_variable : String → List ParsedVariable → ParsedVariable
next_variable t vs = record { label = t; position = length vs + 1 }

add_label-cases :
    (t : String) (vs : List ParsedVariable)
    → ((add_label t vs ≡ vs) × IsListed t vs)
      ⊎ ((is_empty t ≡ false)
          × (find_first (has_label t) vs ≡ none)
          × (add_label t vs ≡ vs ++ (next_variable t vs ∷ [])))
add_label-cases t vs = elim (Bool-cases (is_empty t)) [
  | inl e ↦ inl (ground (arith, e), inl e)
  | inr e ↦ elim (Option-cases (find_first (has_label t) vs)) [
    | inr f ↦ inl (ground (arith, e, f.1), inr f)
    | inl n ↦ inr (e, n, ground (arith, e, n))
  ]
]

add_label-IsNumbered :
    (t : String) (vs : List ParsedVariable)
    → IsNumbered vs
    → IsNumbered (add_label t vs) × IsListed t (add_label t vs)
add_label-IsNumbered t vs h = elim (add_label-cases t vs) [
  | inl k ↦ subst (λ l. IsNumbered l × IsListed t l) (sym k.0) (h, k.1)
  | inr k ↦
      subst (λ l. IsNumbered l × IsListed t l) (sym k.2)
        (
          (CountFrom-append 1 t vs h.0, HasLabels-append (next_variable t vs) vs k.0 k.1 h.1),
          inr (next_variable t vs, find_first-last (next_variable t vs) vs k.1),
        )
]

append-IsListed : (u : String) (vs ws : List ParsedVariable) → IsListed u vs → IsListed u (vs ++ ws)
append-IsListed u vs ws (inl e) = inl e
append-IsListed u vs ws (inr f) = inr (f.0, find_first-append u vs ws f.0 f.1)

add_label-IsListed :
    (u t : String) (vs : List ParsedVariable) → IsListed u vs → IsListed u (add_label t vs)
add_label-IsListed u t vs h = elim (add_label-cases t vs) [
  | inl k ↦ subst (λ l. IsListed u l) (sym k.0) h
  | inr k ↦ subst (λ l. IsListed u l) (sym k.2) (append-IsListed u vs (next_variable t vs ∷ []) h)
]

collect-IsListed :
    (u : String) (ps : List Piece) (vs : List ParsedVariable)
    → IsListed u vs
    → IsListed u (collect vs ps)
unfolding collect
collect-IsListed u [] vs h = h
collect-IsListed u (plain t ∷ ps) vs h = collect-IsListed u ps vs h
collect-IsListed u (marker t ∷ ps) vs h =
    collect-IsListed u ps (add_label (trim t) vs) (add_label-IsListed u (trim t) vs h)

collect-IsNumbered :
    (ps : List Piece) (vs : List ParsedVariable) → IsNumbered vs → IsNumbered (collect vs ps)
unfolding collect
collect-IsNumbered [] vs h = h
collect-IsNumbered (plain t ∷ ps) vs h = collect-IsNumbered ps vs h
collect-IsNumbered (marker t ∷ ps) vs h =
    collect-IsNumbered ps (add_label (trim t) vs) (add_label-IsNumbered (trim t) vs h).0

-- What compileBody makes of a piece: text stays, a blank marker too, and any other marker gives way to
-- the position of the variable of its label.
unfoldable pub IsPlaced : List ParsedVariable → Piece → Type 0
IsPlaced vs (plain t) = compile_piece vs (plain t) ≡ t
IsPlaced vs (marker t) =
    ((is_empty (trim t) ≡ true) × (compile_piece vs (marker t) ≡ bracketed t))
    ⊎ ((v : ParsedVariable) × (find_first (has_label (trim t)) vs ≡ some v)
        × (1 ≤ v.position)
        × (v.position ≤ length vs)
        × (compile_piece vs (marker t) ≡ placeholder v.position))

placeholder_or_position : (full : String) (n : ℕ) → 1 ≤ n → placeholder_or full n ≡ placeholder n
placeholder_or_position full zero h = ground (arith, h)
placeholder_or_position full (suc n) h = refl

plain-IsPlaced : (t : String) (vs : List ParsedVariable) → IsPlaced vs (plain t)
unfolding IsPlaced compile_piece
plain-IsPlaced t vs = refl

marker-IsPlaced :
    (t : String) (vs : List ParsedVariable)
    → IsNumbered vs
    → IsListed (trim t) vs
    → IsPlaced vs (marker t)
unfolding IsPlaced compile_piece
marker-IsPlaced t vs h (inl e) = inl (e, ground (arith, e))
marker-IsPlaced t vs h (inr f) =
    let b = find_first-CountFrom 1 (trim t) vs f.0 h.0 f.1 in
    elim (Bool-cases (is_empty (trim t))) [
      | inl e ↦ inl (e, ground (arith, e))
      | inr e ↦ inr (
        f.0,
        f.1,
        b.0,
        omega (arith, b.1),
        ground (arith, e, f.1, placeholder_or_position (bracketed t) f.0.position b.0),
      )
    ]

collect-IsPlaced :
    (ps : List Piece) (vs : List ParsedVariable) → IsNumbered vs → All (IsPlaced (collect vs ps)) ps
unfolding collect
collect-IsPlaced [] vs h = tt
collect-IsPlaced (plain t ∷ ps) vs h = (plain-IsPlaced t (collect vs ps), collect-IsPlaced ps vs h)
collect-IsPlaced (marker t ∷ ps) vs h =
    let g = add_label-IsNumbered (trim t) vs h in
    (
      marker-IsPlaced t (collect (add_label (trim t) vs) ps)
          (collect-IsNumbered ps (add_label (trim t) vs) g.0)
          (collect-IsListed (trim t) ps (add_label (trim t) vs) g.1),
      collect-IsPlaced ps (add_label (trim t) vs) g.0,
    )

-- The variables of a body are numbered without gaps: their positions are 1, 2, and so on, their labels are
-- not empty and differ; compileBody writes each marker that is not blank as the position of the
-- variable of its label, which is one of these, and every other piece as it stands.
pub parse_body-IsNumbered :
    (raw : String)
    → CountFrom 1 (parse_body raw)
      × HasLabels (parse_body raw)
      × All (IsPlaced (parse_body raw)) (tokens raw)
unfolding parse_body CountFrom HasLabels
parse_body-IsNumbered raw =
    let h : IsNumbered [] = (tt, tt) in
    let n = collect-IsNumbered (tokens raw) [] h in (n.0, n.1, collect-IsPlaced (tokens raw) [] h)
