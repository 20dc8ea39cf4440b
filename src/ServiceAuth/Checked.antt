-- ===== src/ServiceAuth/Checked.antt =====
-- internal/serviceauth/registry.go: what a registry that loads guarantees, and what a request that
-- passes has shown.
use mathlib.Core.List.{Memᴰ}
use Prim.Native.Char.{Char, code}
use text.Mathlib.TextEquality.{Char-path}
use text.Mathlib.TextLemmas.{cons-append, nil-append, append_assoc as text_assoc}
use clearinghouse_batteries.Base.{
  ℕ, String, concat, ◌≡◌, refl, sym, ap, subst, ◌∙◌, Option, none, some, Bool, true, false, not,
  ◌||◌, ◌==◌, ◌⊎◌, inl, inr, if◌then◌else◌, List, [], ◌∷◌, nat_eq, arith, eq_iff, Bool-cases,
}
use clearinghouse_batteries.Base.Lists.{find, select, length, All}
use clearinghouse_batteries.Base.Text.{one_of}
use clearinghouse_batteries.Base.Exec.Inversion.{if_cases}
use clearinghouse_batteries.Base.Exec.Keeps.{Keeps}
use clearinghouse_batteries.ServiceAuth.{
  KafkaCredential, Principal, Registry, Loading, count, has_hash, principal_of, check_principal,
  cut_resource, cut_step, wildcard, permits, permits_all, check,
}

abbrev Row : Type 0
Row = String × ℕ

abbrev counted : Option Row → ℕ
counted none = 0
counted (some row) = row.1

abbrev is_of : String → Row → Bool
is_of i row = row.0 == i

abbrev has_integration : String → String × Principal → Bool
has_integration i row = row.1.integration == i

-- The counts are those of the principals, and the accounting credentials may read.
pub record Consistent (r : Registry) : Type 0 where
  pub counts : (i : String) → count (some r) i ≡ length (select (has_integration i) r.principals)
  pub readers : All (λ (c : KafkaCredential). (not c.accounting || c.read) ≡ true) r.kafka

abbrev IsConsistent : Loading → Type 0
IsConsistent s = Consistent s.registry

some_inj : {A : Type 0} {a b : A} → some a ≡ some b → a ≡ b
some_inj {a = a} h = ap (λ (o : Option _). elim o [ none ↦ a | some x ↦ x ]) h

-- A permission is granted by name, or by the wildcard of the resource before its first point.
abbrev pub Permitted : List String → String → Type 0
Permitted allow permission =
    Memᴰ permission allow
    ⊎ ((resource : String) × (action : String) × (permission ≡ concat resource (concat "." action))
        × Memᴰ (concat resource ".*") allow)

one_of-mem : (s : String) (values : List String) → one_of s values ≡ true → Memᴰ s values
unfolding one_of
one_of-mem s [] h = cc
one_of-mem s (v ∷ values) h = elim (Bool-cases (v == s)) [
  | inl same ↦ Memᴰ.head (sym ((eq_iff v s).0 same))
  | inr differs ↦ Memᴰ.tail (one_of-mem s values (ground arith))
]

abbrev cons : Char → String → String
cons c s = String.◌∷◌ c s

cons-concat : (c : Char) (s : String) → concat (cons c String.[]) s ≡ cons c s
cons-concat c s = cons-append c String.[] s ∙ ap (cons c) (nil-append s)

abbrev Splits : String → String → Type 0
Splits s resource = (action : String) × (s ≡ concat resource (concat "." action))

at_point : (c : Char) (s : String) → nat_eq (code c) b'.' ≡ true → Splits (cons c s) String.[]
at_point c s h =
    let dot : Char = "." in
    let same = Char-path c dot (ground arith) in
    (s, ap (λ d. cons d s) same ∙ sym (cons-concat dot s) ∙ sym (nil-append (concat "." s)))

past_point :
    (c : Char) (s resource : String) (o : Option String)
    → ((r : String) → o ≡ some r → Splits s r)
    → cut_step (code c) (cons c String.[]) o ≡ some resource
    → Splits (cons c s) resource
past_point c s resource none below h = cc
past_point c s resource (some r) below h =
    let (action, e) = below r refl in
    let rest = concat "." action in
    (
      action,
      sym (cons-concat c s)
          ∙ ap (concat (cons c String.[])) e
          ∙ sym (text_assoc (cons c String.[]) r rest)
          ∙ ap (λ x. concat x rest) (some_inj h),
    )

cut_resource-Splits : (s resource : String) → cut_resource s ≡ some resource → Splits s resource
unfolding cut_resource
cut_resource-Splits String.[] resource h = cc
cut_resource-Splits (String.◌∷◌ c s) resource h =
    elim (if_cases (nat_eq (code c) b'.') (some String.[]) _ _ h) [
      | inl (point, e) ↦ subst (Splits (cons c s)) (some_inj e) (at_point c s point)
      | inr (other, e) ↦ past_point c s resource (cut_resource s) (cut_resource-Splits s) e
    ]

permits-Permitted :
    (allow : List String) (permission : String)
    → permits allow permission ≡ true
    → Permitted allow permission
unfolding permits
permits-Permitted allow permission h = elim (Bool-cases (one_of permission allow)) [
  | inl named ↦ inl (one_of-mem permission allow named)
  | inr unnamed ↦ by_resource (cut_resource permission) refl (rest _ _ unnamed h)
]
  where
    rest : (a b : Bool) → a ≡ false → (a || b) ≡ true → b ≡ true
    rest a b e k = ground arith

    by_resource :
        (o : Option String)
        → cut_resource permission ≡ o
        → wildcard allow o ≡ true
        → Permitted allow permission
    by_resource none e k = cc
    by_resource (some resource) e k =
        let (action, split) = cut_resource-Splits permission resource e in
        inr (resource, action, split, one_of-mem (concat resource ".*") allow k)

permits_all-Permitted :
    (allow permissions : List String)
    → permits_all allow permissions ≡ true
    → All (Permitted allow) permissions
unfolding permits_all
permits_all-Permitted allow [] h = tt
permits_all-Permitted allow (p ∷ permissions) h = (
  permits-Permitted allow p (ground arith),
  permits_all-Permitted allow permissions (ground arith),
)

-- What a request that passes has shown.
pub record Authorized (sha256 : String → String) (r : Registry) (values : List String)
    (integration : String) (permissions : List String) : Type 0 where
  pub value : String
  pub principal : Principal
  pub single : values ≡ value ∷ []
  pub registered_row : Memᴰ (sha256 value, principal) r.principals
  pub of_integration : principal.integration ≡ integration
  pub permitted : All (Permitted principal.allow) permissions

row_of :
    (hash : String) (rows : List (String × Principal)) (p : Principal)
    → principal_of (find (has_hash hash) rows) ≡ some p
    → Memᴰ (hash, p) rows
row_of hash [] p h = cc
row_of hash ((stored, q) ∷ rows) p h = elim (Bool-cases (stored == hash)) [
  | inl same ↦
      let found =
        subst
          (λ b. principal_of (if b then some (stored, q) else find (has_hash hash) rows) ≡ some p)
          same h in
      Memᴰ.head (ground (arith, eq_iff stored hash, some_inj found))
  | inr differs ↦ Memᴰ.tail (
      row_of hash rows p (
        subst
          (λ b. principal_of (if b then some (stored, q) else find (has_hash hash) rows) ≡ some p)
          differs h))
]

module _ (sha256 : String → String) (integration : String) (permissions : List String) where
  by_principal :
      (r : Registry) (value : String) (o : Option Principal)
      → principal_of (find (has_hash (sha256 value)) r.principals) ≡ o
      → check_principal o integration permissions ≡ 200
      → Authorized sha256 r (value ∷ []) integration permissions
  by_principal r value none e h = absurd (omega (arith, h))
  by_principal r value (some p) e h =
      elim (if_cases (not (p.integration == integration)) 401 _ 200 h) [
        | inl (foreign, k) ↦ absurd (omega (arith, k))
        | inr (own, k) ↦ elim (if_cases (permits_all p.allow permissions) 200 403 200 k) [
          | inl (all, _) ↦ record {
            value = value;
            principal = p;
            single = refl;
            registered_row = row_of (sha256 value) r.principals p e;
            of_integration = (eq_iff p.integration integration).0 (ground arith);
            permitted = permits_all-Permitted p.allow permissions all;
          }
          | inr (some_missing, x) ↦ absurd (omega (arith, x))
        ]
      ]

  -- A request that passes carries exactly one value of the header, whose hash is that of a
  -- principal of the registry, of the integration that is asked for; and each permission that is
  -- required is allowed to the principal, by name or by the wildcard of its resource.
  pub check-Authorized :
      (registry : Option Registry) (values : List String)
      → check sha256 registry values integration permissions ≡ 200
      → (r : Registry) × (registry ≡ some r) × Authorized sha256 r values integration permissions
  unfolding check
  check-Authorized none values h = absurd (omega (arith, h))
  check-Authorized (some r) [] h = absurd (omega (arith, h))
  check-Authorized (some r) (value ∷ []) h = (r, refl, by_principal r value _ refl h)
  check-Authorized (some r) (value ∷ other ∷ rest) h = absurd (omega (arith, h))
