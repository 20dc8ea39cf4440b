-- ===== src/Migrations/Marked.antt =====
-- migrations/migrations.go: the loop of `List` over the catalog, which marks the migrations that the
-- database has, and ends at a gap.
use clearinghouse_batteries.Base.{
  String, ◌≡◌, refl, sym, ap, subst, ◌∙◌, Option, none, some, Bool, true, false, not, ◌&&◌, ◌||◌,
  inl, inr, List, [], ◌∷◌, ◌++◌, map, Bool-cases,
}
use clearinghouse_batteries.Base.Lists.{find, any, All}
use clearinghouse_batteries.Base.Exec.{ok, map_result}
use clearinghouse_batteries.Base.Exec.Inversion.{ok_inj, map_result_ok, if_ok}
use clearinghouse_batteries.Migrations.{Status, is_named, with_saved, marked, mark}

abbrev IsApplied : Status → Type 0
IsApplied s = s.applied ≡ true

abbrev pub IsPending : Status → Type 0
IsPending s = s.applied ≡ false

-- The applied migrations come first.
pub record InOrder (statuses : List Status) : Type 0 where
  pub first : List Status
  pub rest : List Status
  pub parts : first ++ rest ≡ statuses
  pub applied_first : All IsApplied first
  pub pending_rest : All IsPending rest

abbrev pub file : Status → String
file s = s.filename

-- A step of the loop over the catalog, and what it left for the rest.
mark_step :
    (applied specs out : List Status) (missing : Bool) (s : Status)
    → mark applied missing (s ∷ specs) ≡ ok out
    → (missing && (marked applied s).applied ≡ false)
      × ((tail : List Status) × (mark applied (missing || not (marked applied s).applied) specs
            ≡ ok tail)
          × (marked applied s ∷ tail ≡ out))
unfolding mark
mark_step applied specs out missing s h =
    let (kept, returned) =
      if_ok (missing && (marked applied s).applied) _
        (map_result (λ (xs : List Status). marked applied s ∷ xs)
          (mark applied (missing || not (marked applied s).applied) specs))
        out h in
    (
      kept,
      map_result_ok (λ xs. marked applied s ∷ xs)
          (mark applied (missing || not (marked applied s).applied) specs) out returned,
    )

mark-IsPending :
    (applied specs out : List Status) → mark applied true specs ≡ ok out → All IsPending out
unfolding mark
mark-IsPending applied [] out h = subst (All IsPending) (ok_inj h) tt
mark-IsPending applied (s ∷ specs) out h =
    let (pending, (tail, r, e)) = mark_step applied specs out true s h in
    subst (All IsPending) e (pending, mark-IsPending applied specs tail r)

pub mark-InOrder :
    (applied specs out : List Status) → mark applied false specs ≡ ok out → InOrder out
unfolding mark
mark-InOrder applied [] out h = record {
  first = [];
  rest = [];
  parts = ok_inj h;
  applied_first = tt;
  pending_rest = tt;
}
mark-InOrder applied (s ∷ specs) out h =
    let (none_missing, (tail, r, e)) = mark_step applied specs out false s h in
    elim (Bool-cases ((marked applied s).applied)) [
      | inl hit ↦
          let more =
            mark-InOrder applied specs tail
              (subst (λ b. mark applied (not b) specs ≡ ok tail) hit r) in
          record {
            first = marked applied s ∷ more.first;
            rest = more.rest;
            parts = ap (λ xs. marked applied s ∷ xs) more.parts ∙ e;
            applied_first = (hit, more.applied_first);
            pending_rest = more.pending_rest;
          }
      | inr miss ↦ record {
        first = [];
        rest = out;
        parts = refl;
        applied_first = tt;
        pending_rest = subst (All IsPending) e (
          miss,
          mark-IsPending applied specs tail
              (subst (λ b. mark applied (not b) specs ≡ ok tail) miss r),
        );
      }
    ]

with_saved_file : (s : Status) (saved : Option Status) → (with_saved s saved).filename ≡ s.filename
with_saved_file s none = refl
with_saved_file s (some saved) = refl

pub mark_files :
    (applied specs out : List Status) (missing : Bool)
    → mark applied missing specs ≡ ok out
    → map file out ≡ map file specs
unfolding mark
mark_files applied [] out missing h = ap (map file) (sym (ok_inj h))
mark_files applied (s ∷ specs) out missing h =
    let (kept, (tail, r, e)) = mark_step applied specs out missing s h in
    let same = with_saved_file s (find (is_named s.filename) applied) in
    let others = mark_files applied specs tail _ r in
    subst (λ xs. map file xs ≡ file s ∷ map file specs) e cc

with_saved_applied :
    (p : Status → Bool) (s : Status) (applied : List Status)
    → IsPending s
    → (with_saved s (find p applied)).applied ≡ any p applied
with_saved_applied p s [] h = h
with_saved_applied p s (x ∷ xs) h = elim (Bool-cases (p x)) [
  | inl hit ↦ rw hit
  | inr miss ↦ rw miss (with_saved_applied p s xs h)
]

pub mark_recorded :
    (applied specs out : List Status) (missing : Bool)
    → All IsPending specs
    → mark applied missing specs ≡ ok out
    → All (λ s. s.applied ≡ any (is_named s.filename) applied) out
unfolding mark
mark_recorded applied [] out missing pending h =
    subst (All (λ s. s.applied ≡ any (is_named s.filename) applied)) (ok_inj h) tt
mark_recorded applied (s ∷ specs) out missing pending h =
    let (kept, (tail, r, e)) = mark_step applied specs out missing s h in
    let same = with_saved_file s (find (is_named s.filename) applied) in
    subst (All (λ s. s.applied ≡ any (is_named s.filename) applied)) e (
      subst (λ n. (marked applied s).applied ≡ any (is_named n) applied) (sym same)
          (with_saved_applied (is_named s.filename) s applied pending.0),
      mark_recorded applied specs tail _ pending.1 r,
    )
