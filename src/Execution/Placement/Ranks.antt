-- ===== src/Execution/Placement/Ranks.antt =====
-- The first of the sorted evaluations is the best by status, priority or rate, and latency.
use market_cell.Prelude.{
  ℕ, ◌≡◌, refl, Bool, true, false, Option, none, some, List, [], ◌∷◌, All, All-weaken, sort_by,
  insert_by, text_le, arith, Bool-cases, inl, inr, All-insert_by,
}
use market_cell.Execution.Placement.{
  Rank, lex, lex_duration, lex_text, rank_le, Evaluation, evaluation_le, selection_rank,
}

-- The order of the ranks without the two texts that break ties.
abbrev pub key_le : Rank → Rank → Bool
key_le a b = lex a.tier b.tier (
    lex a.first b.first
      (lex a.second b.second (lex_duration a.p95_duration_ms b.p95_duration_ms true)))

lex_duration-flip :
    (a b : Option ℕ) (r : Bool)
    → (lex_duration a b r ≡ true → lex_duration a b true ≡ true)
      × (lex_duration a b r ≡ false → lex_duration b a true ≡ true)
lex_duration-flip none none r = (λ e. refl, λ e. refl)
lex_duration-flip none (some b) r = (λ e. cc, λ e. refl)
lex_duration-flip (some a) none r = (λ e. refl, λ e. cc)
lex_duration-flip (some a) (some b) r = (λ e. ground arith, λ e. ground arith)

lex_duration_trans :
    (a b c : Option ℕ)
    → lex_duration a b true ≡ true
    → lex_duration b c true ≡ true
    → lex_duration a c true ≡ true
lex_duration_trans none none c h k = k
lex_duration_trans none (some b) c h k = cc
lex_duration_trans (some a) b none h k = refl
lex_duration_trans (some a) none (some c) h k = cc
lex_duration_trans (some a) (some b) (some c) h k = ground arith

key_le-rank_le :
    (a b : Rank)
    → (rank_le a b ≡ true → key_le a b ≡ true) × (rank_le a b ≡ false → key_le b a ≡ true)
unfolding rank_le
key_le-rank_le a b =
    let flip =
      lex_duration-flip a.p95_duration_ms b.p95_duration_ms
        (lex_text a.implementation_id b.implementation_id (text_le a.service_id b.service_id)) in
    (λ e. ground (arith, e, flip), λ e. ground (arith, e, flip))

key_le_trans : (a b c : Rank) → key_le a b ≡ true → key_le b c ≡ true → key_le a c ≡ true
key_le_trans a b c h k =
    ground (arith, h, k, lex_duration_trans a.p95_duration_ms b.p95_duration_ms c.p95_duration_ms)

-- No evaluation of the list comes before this one.
abbrev pub IsBest : Evaluation → List Evaluation → Type 0
IsBest best es = All (λ e. key_le (selection_rank best) (selection_rank e) ≡ true) es

abbrev pub IsOrdered : List Evaluation → Type 0
IsOrdered [] = Unit
IsOrdered (e ∷ es) = IsBest e es × IsOrdered es

insert_by-IsOrdered :
    (e : Evaluation) (es : List Evaluation)
    → IsOrdered es
    → IsOrdered (insert_by evaluation_le e es)
unfolding insert_by
insert_by-IsOrdered e [] h = (tt, tt)
insert_by-IsOrdered e (x ∷ es) (best, h) = elim (Bool-cases (evaluation_le e x)) [
  | inl le ↦
      let first = (key_le-rank_le (selection_rank e) (selection_rank x)).0 le in
      rw le (
        (
          (
            first,
            All-weaken es
                (λ y k.
                  key_le_trans (selection_rank e) (selection_rank x) (selection_rank y) first k)
                best,
          ),
          (best, h),
        ))
  | inr gt ↦ rw gt (
    All-insert_by evaluation_le (λ y. key_le (selection_rank x) (selection_rank y) ≡ true) e es
        ((key_le-rank_le (selection_rank e) (selection_rank x)).1 gt) best,
    insert_by-IsOrdered e es h,
  )
]

pub sort_by-IsOrdered : (es : List Evaluation) → IsOrdered (sort_by evaluation_le es)
unfolding sort_by
sort_by-IsOrdered [] = tt
sort_by-IsOrdered (e ∷ es) = insert_by-IsOrdered e (sort_by evaluation_le es) (sort_by-IsOrdered es)
