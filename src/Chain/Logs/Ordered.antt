-- ===== src/Chain/Logs/Ordered.antt =====
-- internal/chain/listener.go, `orderedUniqueLogs`: the logs that are kept, and their order.
use mathlib.Core.List.{Memᴰ}
use mathlib.Core.List.Memᴰ
use clearinghouse_batteries.Base.{
  String, ◌≡◌, refl, sym, subst, ◌⊎◌, ◌∙◌, Option, none, some, Bool, true, false, if◌then◌else◌,
  List, [], ◌∷◌, inl, inr, arith, eq_iff, ◌↔◌,
}
use clearinghouse_batteries.Base.Sort.{sort_by, IsSorted, Leads, sort_by-IsSorted, mem-sort_by}
use clearinghouse_batteries.Base.Exec.{ok}
use clearinghouse_batteries.Base.Exec.Inversion.{ok_inj, bind_result_ok, map_result_ok, if_cases}
use clearinghouse_batteries.Chain.Logs.{
  Log, log_before, same_topics, same_identity, same_bool, same_content, repeats, unique_logs,
  ordered_unique_logs,
}

same_topics_eq : (a b : List String) → same_topics a b ≡ true → b ≡ a
same_topics_eq [] [] h = refl
same_topics_eq (s ∷ ss) (t ∷ ts) h = ground (arith, eq_iff s t, same_topics_eq ss ts)
same_topics_eq [] (t ∷ ts) h = cc
same_topics_eq (s ∷ ss) [] h = cc

same_bool_eq : (a b : Bool) → same_bool a b ≡ true → b ≡ a
same_bool_eq true true h = refl
same_bool_eq true false h = cc
same_bool_eq false true h = cc
same_bool_eq false false h = refl

-- A repeated log is the one before it.
repeated_eq : (a b : Log) → same_identity a b ≡ true → same_content a b ≡ true → b ≡ a
repeated_eq a b h k = ground (
  arith,
  eq_iff a.block_hash b.block_hash,
  eq_iff a.tx_hash b.tx_hash,
  eq_iff a.address b.address,
  eq_iff a.payload b.payload,
  same_topics_eq a.topics b.topics,
  same_bool_eq a.removed b.removed,
)

log_before-asym : (a b : Log) → log_before a b ≡ true → log_before b a ≡ false
unfolding log_before
log_before-asym a b h = ground arith

abbrev Kept : Option Log → List Log → Type 0
Kept none out = Unit
Kept (some p) out = Leads log_before p out

-- After the last kept log, the rest of a sorted list.
abbrev After : Option Log → List Log → Type 0
After none logs = IsSorted log_before logs
After (some p) logs = IsSorted log_before (p ∷ logs)

-- No log stands directly behind one of the same identity.
abbrev Fresh : Log → List Log → Type 0
Fresh p [] = Unit
Fresh p (log ∷ out) = same_identity p log ≡ false

abbrev pub AreUnique : List Log → Type 0
AreUnique [] = Unit
AreUnique (log ∷ out) = Fresh log out × AreUnique out

abbrev FreshAfter : Option Log → List Log → Type 0
FreshAfter none out = Unit
FreshAfter (some p) out = Fresh p out

abbrev Elsewhere : Option Log → Log → Type 0
Elsewhere none log = ⊥
Elsewhere (some p) log = log ≡ p

-- What is kept of a sorted list.
record Unique (previous : Option Log) (logs out : List Log) : Type 0 where
  pub leads : Kept previous out
  pub sorted : IsSorted log_before out
  pub first : FreshAfter previous out
  pub unique : AreUnique out
  pub complete : (log : Log) → Memᴰ log logs → Elsewhere previous log ⊎ Memᴰ log out
  pub sound : (log : Log) → Memᴰ log out → Memᴰ log logs

-- A log that repeats the last one kept is that log; any other has another identity.
repeats_cases :
    (previous : Option Log) (log : Log) (b : Bool)
    → repeats previous log ≡ ok b
    → ((b ≡ true) × Elsewhere previous log) ⊎ ((b ≡ false) × FreshAfter previous (log ∷ []))
unfolding repeats
repeats_cases none log b h = inr (sym (ok_inj h), tt)
repeats_cases (some p) log b h = elim (if_cases (same_identity p log) _ _ _ h) [
  | inl (same, k) ↦ elim (if_cases (same_content p log) _ _ _ k) [
    | inl (content, e) ↦ inl (sym (ok_inj e), repeated_eq p log same content)
    | inr (differs, e) ↦ cc
  ]
  | inr (fresh, e) ↦ inr (sym (ok_inj e), fresh)
]

Kept-Leads :
    (previous : Option Log) (log : Log) (logs out : List Log)
    → After previous (log ∷ logs)
    → Kept previous (log ∷ out)
Kept-Leads none log logs out h = tt
Kept-Leads (some p) log logs out h = h.0

After-kept :
    (previous : Option Log) (log : Log) (logs : List Log)
    → After previous (log ∷ logs)
    → After (some log) logs
After-kept none log logs h = h
After-kept (some p) log logs h = h.1

After-skipped :
    (previous : Option Log) (log : Log) (logs : List Log)
    → Elsewhere previous log
    → After previous (log ∷ logs)
    → After previous logs
After-skipped none log logs e h = absurd e
After-skipped (some p) log logs e h = subst (λ l. IsSorted log_before (l ∷ logs)) e h.1

keep :
    (previous : Option Log) (log : Log) (logs out : List Log)
    → After previous (log ∷ logs)
    → FreshAfter previous (log ∷ [])
    → Unique (some log) logs out
    → Unique previous (log ∷ logs) (log ∷ out)
keep previous log logs out h fresh u = record {
  leads = Kept-Leads previous log logs out h;
  sorted = (u.leads, u.sorted);
  first = still_fresh previous fresh;
  unique = (u.first, u.unique);
  complete = λ l m. elim (Memᴰ.cases_cons m) [
    | inl e ↦ inr (Memᴰ.head e)
    | inr rest ↦ elim (u.complete l rest) [
      | inl same ↦ inr (Memᴰ.head same)
      | inr kept ↦ inr (Memᴰ.tail kept)
    ]
  ];
  sound = λ l m. elim (Memᴰ.cases_cons m) [
    | inl e ↦ Memᴰ.head e
    | inr rest ↦ Memᴰ.tail (u.sound l rest)
  ];
}
  where
    still_fresh : (p : Option Log) → FreshAfter p (log ∷ []) → FreshAfter p (log ∷ out)
    still_fresh none f = tt
    still_fresh (some p) f = f

skip :
    (previous : Option Log) (log : Log) (logs out : List Log)
    → Elsewhere previous log
    → Unique previous logs out
    → Unique previous (log ∷ logs) out
skip previous log logs out e u = record {
  leads = u.leads;
  sorted = u.sorted;
  first = u.first;
  unique = u.unique;
  complete = λ l m. elim (Memᴰ.cases_cons m) [
    | inl same ↦ inl (moved previous l same e)
    | inr rest ↦ u.complete l rest
  ];
  sound = λ l m. Memᴰ.tail (u.sound l m);
}
  where
    moved : (p : Option Log) (l : Log) → l ≡ log → Elsewhere p log → Elsewhere p l
    moved none l same f = f
    moved (some p) l same f = same ∙ f

Unique-step :
    (previous : Option Log) (log : Log) (logs rest out : List Log) (again : Bool)
    → After previous (log ∷ logs)
    → repeats previous log ≡ ok again
    → ((p : Option Log) → After p logs → unique_logs p logs ≡ ok rest → Unique p logs rest)
    → unique_logs (if again then previous else some log) logs ≡ ok rest
    → (if again then rest else log ∷ rest) ≡ out
    → Unique previous (log ∷ logs) out
Unique-step previous log logs rest out true h e below ran same =
    elim (repeats_cases previous log true e) [
      | inl (_, found) ↦ subst (Unique previous (log ∷ logs)) same (
          skip previous log logs rest found
            (below previous (After-skipped previous log logs found h) ran))
      | inr (wrong, _) ↦ cc
    ]
Unique-step previous log logs rest out false h e below ran same =
    elim (repeats_cases previous log false e) [
      | inl (wrong, _) ↦ cc
      | inr (_, fresh) ↦ subst (Unique previous (log ∷ logs)) same (
          keep previous log logs rest h fresh
            (below (some log) (After-kept previous log logs h) ran))
    ]

nothing-Unique : (previous : Option Log) → Unique previous [] []
nothing-Unique none = record {
  leads = tt;
  sorted = tt;
  first = tt;
  unique = tt;
  complete = λ l m. absurd (Memᴰ.not-nil m);
  sound = λ l m. m;
}
nothing-Unique (some p) = record {
  leads = tt;
  sorted = tt;
  first = tt;
  unique = tt;
  complete = λ l m. absurd (Memᴰ.not-nil m);
  sound = λ l m. m;
}

unique_logs-Unique :
    (logs : List Log) (previous : Option Log) (out : List Log)
    → After previous logs
    → unique_logs previous logs ≡ ok out
    → Unique previous logs out
unfolding unique_logs
unique_logs-Unique [] previous out h k =
    subst (Unique previous []) (ok_inj k) (nothing-Unique previous)
unique_logs-Unique (log ∷ logs) previous out h k =
    let (again, e, k') = bind_result_ok (repeats previous log) _ out k in
    let (rest, ran, same) =
      map_result_ok _ (unique_logs (if again then previous else some log) logs) out k' in
    Unique-step previous log logs rest out again h e
      (λ p sorted found. unique_logs-Unique logs p rest sorted found) ran same

-- What the listener goes on with, of the logs that a node returned.
pub record OrderedUnique (logs out : List Log) : Type 0 where
  pub sorted : IsSorted log_before out
  pub unique : AreUnique out
  pub same_logs : (log : Log) → Memᴰ log logs ↔ Memᴰ log out

-- Logs that are accepted come out in the order of their blocks, and of their indices in a block,
-- with no two neighbours of the same block hash, transaction and index; and they are the logs
-- that the node returned: each of those is among them, and no other is.
pub ordered_unique_logs-OrderedUnique :
    (logs out : List Log) → ordered_unique_logs logs ≡ ok out → OrderedUnique logs out
unfolding ordered_unique_logs
ordered_unique_logs-OrderedUnique logs out h =
    let u =
      unique_logs-Unique (sort_by log_before logs) none out
        (sort_by-IsSorted log_before log_before-asym logs) h in
    record {
      sorted = u.sorted;
      unique = u.unique;
      same_logs = λ log. (
        λ m. only (u.complete log ((mem-sort_by log_before log logs).0 m)),
        λ m. (mem-sort_by log_before log logs).1 (u.sound log m),
      );
    }
  where
    only : {P : Type 0} → ⊥ ⊎ P → P
    only (inl f) = absurd f
    only (inr p) = p
