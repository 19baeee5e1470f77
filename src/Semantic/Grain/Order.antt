-- ===== src/Semantic/Grain/Order.antt =====
-- The tokens of the grains, and the order in which one rolls up to another.
use pawrly.Prelude.{
  ℕ, zero, suc, ◌≤◌, leb, leb_iff, ◌&&◌, &&-eq-true, ◌≡◌, ◌↔◌, refl, sym, ap, ◌∙◌, Text, codes,
  true, Option, some, text_eq, text_eq_iff, some_inj, Bool-cases, inl, inr, arith,
}
use pawrly.Semantic.Grain.{
  TimeGrain, hour, day, week, month, quarter, year, as_str, parse, rank, grain_eq, nests,
  can_roll_up_to,
}

parse-as_str : (g : TimeGrain) → parse (as_str g) ≡ some g
unfolding parse as_str text_eq
parse-as_str hour = refl
parse-as_str day = refl
parse-as_str week = refl
parse-as_str month = refl
parse-as_str quarter = refl
parse-as_str year = refl

token_of_parse : (s : Text) (g : TimeGrain) → parse s ≡ some g → s ≡ as_str g
unfolding parse as_str
token_of_parse s g h = elim (Bool-cases (text_eq s (codes "hour"))) [
  | inl t ↦ named (codes "hour") hour t (rw t at h) refl
  | inr a ↦ elim (Bool-cases (text_eq s (codes "day"))) [
    | inl t ↦ named (codes "day") day t (rw t at (rw a at h)) refl
    | inr b ↦ elim (Bool-cases (text_eq s (codes "week"))) [
      | inl t ↦ named (codes "week") week t (rw t at (rw (a, b) at h)) refl
      | inr c ↦ elim (Bool-cases (text_eq s (codes "month"))) [
        | inl t ↦ named (codes "month") month t (rw t at (rw (a, b, c) at h)) refl
        | inr d ↦ elim (Bool-cases (text_eq s (codes "quarter"))) [
          | inl t ↦ named (codes "quarter") quarter t (rw t at (rw (a, b, c, d) at h)) refl
          | inr e ↦ elim (Bool-cases (text_eq s (codes "year"))) [
            | inl t ↦ named (codes "year") year t (rw t at (rw (a, b, c, d, e) at h)) refl
            | inr f ↦ cc (rw (a, b, c, d, e, f) at h)
          ]
        ]
      ]
    ]
  ]
]
  where
    named :
        (token : Text) (k : TimeGrain)
        → text_eq s token ≡ true
        → some k ≡ some g
        → as_str k ≡ token
        → s ≡ as_str g
    named token k t e r =
        let same : k ≡ g = cc in (text_eq_iff s token).0 t ∙ sym r ∙ ap as_str same

-- A text parses as a grain exactly if it is the grain's token.
pub parse_iff : (s : Text) (g : TimeGrain) → (parse s ≡ some g) ↔ (s ≡ as_str g)
parse_iff s g = (token_of_parse s g, λ e. ap parse e ∙ parse-as_str g)

-- A second rank, in which the weeks come last.
abbrev turn : TimeGrain → ℕ
turn hour = 0
turn day = 1
turn month = 2
turn quarter = 3
turn year = 4
turn week = 5

-- One grain rolls up to another exactly if it comes first in both ranks.
two_ranks :
    (g h : TimeGrain) → can_roll_up_to g h ≡ (leb (rank g) (rank h) && leb (turn g) (turn h))
unfolding can_roll_up_to nests grain_eq rank
two_ranks hour hour = refl
two_ranks hour day = refl
two_ranks hour week = refl
two_ranks hour month = refl
two_ranks hour quarter = refl
two_ranks hour year = refl
two_ranks day hour = refl
two_ranks day day = refl
two_ranks day week = refl
two_ranks day month = refl
two_ranks day quarter = refl
two_ranks day year = refl
two_ranks week hour = refl
two_ranks week day = refl
two_ranks week week = refl
two_ranks week month = refl
two_ranks week quarter = refl
two_ranks week year = refl
two_ranks month hour = refl
two_ranks month day = refl
two_ranks month week = refl
two_ranks month month = refl
two_ranks month quarter = refl
two_ranks month year = refl
two_ranks quarter hour = refl
two_ranks quarter day = refl
two_ranks quarter week = refl
two_ranks quarter month = refl
two_ranks quarter quarter = refl
two_ranks quarter year = refl
two_ranks year hour = refl
two_ranks year day = refl
two_ranks year week = refl
two_ranks year month = refl
two_ranks year quarter = refl
two_ranks year year = refl

two_ranks_iff :
    (g h : TimeGrain) → (can_roll_up_to g h ≡ true) ↔ ((rank g ≤ rank h) × (turn g ≤ turn h))
two_ranks_iff g h =
    let (f, f') = leb_iff (rank g) (rank h) in
    let (k, k') = leb_iff (turn g) (turn h) in
    (
      λ e. let (a, b) = &&-eq-true _ _ (sym (two_ranks g h) ∙ e) in (f a, k b),
      λ (a, b). two_ranks g h ∙ rw (f' a) (k' b),
    )

of_rank : ℕ → Option TimeGrain
of_rank zero = some hour
of_rank (suc zero) = some day
of_rank (suc (suc zero)) = some week
of_rank (suc (suc (suc zero))) = some month
of_rank (suc (suc (suc (suc zero)))) = some quarter
of_rank (suc (suc (suc (suc (suc n))))) = some year

of_rank-rank : (g : TimeGrain) → of_rank (rank g) ≡ some g
unfolding of_rank rank
of_rank-rank hour = refl
of_rank-rank day = refl
of_rank-rank week = refl
of_rank-rank month = refl
of_rank-rank quarter = refl
of_rank-rank year = refl

rank-injective : (g h : TimeGrain) → rank g ≡ rank h → g ≡ h
rank-injective g h e = some_inj (sym (of_rank-rank g) ∙ ap of_rank e ∙ of_rank-rank h)

-- Rolling up is a partial order of the grains, within that of their ranks, in which a week rolls up to
-- nothing coarser.
pub record IsOrder : Type 0 where
  pub reflexive : (g : TimeGrain) → can_roll_up_to g g ≡ true
  pub transitive :
      (g h k : TimeGrain)
      → can_roll_up_to g h ≡ true
      → can_roll_up_to h k ≡ true
      → can_roll_up_to g k ≡ true
  pub antisymmetric :
      (g h : TimeGrain) → can_roll_up_to g h ≡ true → can_roll_up_to h g ≡ true → g ≡ h
  pub by_rank : (g h : TimeGrain) → can_roll_up_to g h ≡ true → rank g ≤ rank h
  pub week_alone : (h : TimeGrain) → can_roll_up_to week h ≡ true → h ≡ week

weeks : (h : TimeGrain) → turn week ≤ turn h → h ≡ week
weeks week e = refl
weeks hour e = absurd (omega arith)
weeks day e = absurd (omega arith)
weeks month e = absurd (omega arith)
weeks quarter e = absurd (omega arith)
weeks year e = absurd (omega arith)

-- Rolling up is a partial order of the grains, and lies within the order of their ranks; a week rolls
-- up to itself alone.
pub can_roll_up_to-IsOrder : IsOrder
can_roll_up_to-IsOrder = record {
  reflexive = λ g. (two_ranks_iff g g).1 (omega arith, omega arith);
  transitive = λ g h k e f.
      let (a, b) = (two_ranks_iff g h).0 e in
      let (c, d) = (two_ranks_iff h k).0 f in (two_ranks_iff g k).1 (omega arith, omega arith);
  antisymmetric = λ g h e f.
      let (a, b) = (two_ranks_iff g h).0 e in
      let (c, d) = (two_ranks_iff h g).0 f in rank-injective g h (omega arith);
  by_rank = λ g h e. ((two_ranks_iff g h).0 e).0;
  week_alone = λ h e. weeks h ((two_ranks_iff week h).0 e).1;
}
