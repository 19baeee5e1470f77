-- ===== src/Http/Bind/Laws.antt =====
-- What the parameters of a scan and of its requests hold.
use mathlib.Core.Path.{subst}
use native.Mathlib.Nat.{mul_assoc}
use pawrly.Prelude.{
  ℕ, ◌*◌, ◌≡◌, ◌↔◌, refl, sym, ◌∙◌, ap, List, [], ◌∷◌, ◌++◌, length, length-append, length-map, map,
  ◌⊎◌, inl, inr, arith, Text, put,
}
use pawrly.Http.Paginate.Next.{Params}
use pawrly.Http.Bind.{Fanout, with_values, expand_from, expand_fanout, extend}

abbrev pub Elem : {A : Type 0} → A → List A → Type 0
Elem x [] = ⊥
Elem x (y ∷ ys) = (x ≡ y) ⊎ Elem x ys

-- One value for each parameter that is fanned out.
abbrev pub Chooses : Params → Fanout → Type 0
Chooses [] [] = Unit
Chooses [] (e ∷ es) = ⊥
Chooses (c ∷ cs) [] = ⊥
Chooses ((k, v) ∷ cs) ((name, vals) ∷ es) = (k ≡ name) × Elem v vals × Chooses cs es

-- How many choices there are.
abbrev pub combinations : Fanout → ℕ
combinations [] = 1
combinations ((name, vals) ∷ es) = length vals * combinations es

Elem-append_iff :
    {A : Type 0} (x : A) (xs ys : List A) → Elem x (xs ++ ys) ↔ (Elem x xs ⊎ Elem x ys)
Elem-append_iff x [] ys = (λ h. inr h, λ h. elim h [ inl b ↦ elim b [ ] | inr k ↦ k ])
Elem-append_iff x (z ∷ xs) ys =
    let (f, g) = Elem-append_iff x xs ys in
    (
      λ h. elim h [
        | inl e ↦ inl (inl e)
        | inr k ↦ elim (f k) [ inl a ↦ inl (inr a) | inr b ↦ inr b ]
      ],
      λ h. elim h [ inl (inl e) ↦ inl e | inl (inr a) ↦ inr (g (inl a)) | inr b ↦ inr (g (inr b)) ],
    )

Elem-map_iff :
    {A B : Type 0} (f : A → B) (y : B) (xs : List A)
    → Elem y (map f xs) ↔ ((x : A) × Elem x xs × (y ≡ f x))
Elem-map_iff f y [] = (λ h. elim h [ ], λ (x, h, e). elim h [ ])
Elem-map_iff f y (x ∷ xs) =
    let (g, g') = Elem-map_iff f y xs in
    (
      λ h. elim h [ inl e ↦ (x, inl refl, e) | inr k ↦ (let (z, m, e) = g k in (z, inr m, e)) ],
      λ (z, h, e). elim h [ inl q ↦ inl (e ∙ ap f q) | inr k ↦ inr (g' (z, k, e)) ],
    )

with_values_iff :
    (name : Text) (vals : List Text) (sets : List Params) (m : Params)
    → Elem m (with_values name vals sets)
      ↔ ((s : Params) × Elem s sets × ((v : Text) × Elem v vals × (m ≡ put name v s)))
unfolding with_values
with_values_iff name vals [] m = (λ h. elim h [ ], λ (s, h, _). elim h [ ])
with_values_iff name vals (s ∷ sets) m =
    let (a, a') = Elem-append_iff m (map (λ v. put name v s) vals) (with_values name vals sets) in
    let (b, b') = Elem-map_iff (λ v. put name v s) m vals in
    let (c, c') = with_values_iff name vals sets m in
    (
      λ h. elim (a h) [
        | inl k ↦ (s, inl refl, b k)
        | inr k ↦ (let (t, e, w) = c k in (t, inr e, w))
      ],
      λ (t, h, (v, e, q)). elim h [
        | inl r ↦ a' (inl (b' (v, e, q ∙ ap (put name v) r)))
        | inr k ↦ a' (inr (c' (t, k, (v, e, q))))
      ],
    )

expand_from-Chooses :
    (sets : List Params) (fanout : Fanout) (m : Params)
    → Elem m (expand_from sets fanout)
    → (s : Params) × Elem s sets × ((cs : Params) × Chooses cs fanout × (m ≡ extend cs s))
unfolding expand_from extend
expand_from-Chooses sets [] m h = (m, h, ([], tt, refl))
expand_from-Chooses sets ((name, vals) ∷ fanout) m h =
    let (t, k, (cs, c, e)) = expand_from-Chooses (with_values name vals sets) fanout m h in
    let (s, j, (v, w, q)) = (with_values_iff name vals sets t).0 k in
    (s, j, ((name, v) ∷ cs, (refl, w, c), e ∙ ap (extend cs) q))

Chooses-expand_from :
    (sets : List Params) (fanout : Fanout) (s cs : Params)
    → Elem s sets
    → Chooses cs fanout
    → Elem (extend cs s) (expand_from sets fanout)
unfolding expand_from extend
Chooses-expand_from sets [] s [] h c = h
Chooses-expand_from sets [] s (_ ∷ cs) h c = elim c [ ]
Chooses-expand_from sets (_ ∷ fanout) s [] h c = elim c [ ]
Chooses-expand_from sets ((name, vals) ∷ fanout) s ((k, v) ∷ cs) h (e, w, c) =
    Chooses-expand_from (with_values name vals sets) fanout (put k v s) cs
      ((with_values_iff name vals sets (put k v s)).1 (s, h, (v, w, ap (λ j. put j v s) e))) c

length-with_values :
    (name : Text) (vals : List Text) (sets : List Params)
    → length (with_values name vals sets) ≡ length sets * length vals
unfolding with_values
length-with_values name vals [] = omega arith
length-with_values name vals (s ∷ sets) =
    let one = length-append (map (λ v. put name v s) vals) (with_values name vals sets) in
    let two = length-map (λ v. put name v s) vals in
    omega (arith, one, two, length-with_values name vals sets)

length-expand_from :
    (sets : List Params) (fanout : Fanout)
    → length (expand_from sets fanout) ≡ length sets * combinations fanout
unfolding expand_from
length-expand_from sets [] = omega arith
length-expand_from sets ((name, vals) ∷ fanout) =
    length-expand_from (with_values name vals sets) fanout
    ∙ ap (λ n. n * combinations fanout) (length-with_values name vals sets)
    ∙ mul_assoc (length sets) (length vals) (combinations fanout)

-- The parameter sets of a scan are exactly the base with one value chosen for each parameter that is
-- fanned out, one set for each choice: their number is the product of the numbers of values.
pub expand_fanout_iff :
    (base : Params) (fanout : Fanout)
    → ((m : Params)
        → Elem m (expand_fanout base fanout)
          ↔ ((cs : Params) × Chooses cs fanout × (m ≡ extend cs base)))
      × (length (expand_fanout base fanout) ≡ combinations fanout)
unfolding expand_fanout
expand_fanout_iff base fanout = (
  λ m. (
    λ h.
        let (s, k, (cs, c, e)) = expand_from-Chooses (base ∷ []) fanout m h in
        elim k [ inl q ↦ (cs, c, e ∙ ap (extend cs) q) | inr b ↦ elim b [ ] ],
    λ (cs, c, e).
        subst (λ t. Elem t (expand_from (base ∷ []) fanout)) (sym e)
          (Chooses-expand_from (base ∷ []) fanout base cs (inl refl) c),
  ),
  length-expand_from (base ∷ []) fanout ∙ omega arith,
)
