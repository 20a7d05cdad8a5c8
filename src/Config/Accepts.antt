-- ===== src/Config/Accepts.antt =====
-- internal/config/validation.go: which changes the validation accepts.
use mathlib.Core.Bool.{false≢true}
use telemetry_change_guard.Common.{
  ℕ, String, Bool, true, false, not, ◌&&◌, Option, none, some, List, [], ◌∷◌, ◌++◌, ◌==◌, ◌≡◌, refl,
  sym, ◌∙◌, ◌↔◌, ◌≢◌, inl, inr, arith, eq_iff, Bool-cases,
}
use telemetry_change_guard.Domain.{Symbol, Change}
use telemetry_change_guard.Domain.SymbolKind
use telemetry_change_guard.Config.{
  add_if, text, is_supported_domain, is_supported_change_kind, is_rename, expected_symbol_kind,
  domain_supports_kind, validate_symbol, check_destination, check_symbols, check_change,
}

pub append-eq-nil {ℓ} : {A : Type ℓ} (xs ys : List A) → (xs ++ ys ≡ []) ↔ ((xs ≡ []) × (ys ≡ []))
append-eq-nil [] ys = (λ h. (refl, h), λ (_, k). k)
append-eq-nil (x ∷ xs) ys = (λ h. cc h, λ (k, _). cc k)

pub add_if-eq-nil : (t : Bool) (p m : String) → (add_if t p m ≡ []) ↔ (t ≡ false)
unfolding add_if
add_if-eq-nil true p m = (λ h. cc h, λ h. cc h)
add_if-eq-nil false p m = (λ h. refl, λ h. refl)

pub add_if-true : (p m : String) → add_if true p m ≢ []
add_if-true p m h = absurd (false≢true (sym ((add_if-eq-nil true p m).0 h)))

-- A symbol that fits a change in the domain with changes of that kind of symbol.
pub record IsSymbolFor (is_blank : String → Bool) (s : Symbol) (domain kind : String) : Type 0 where
  pub same_domain : s.domain ≡ domain
  pub same_kind : s.kind ≡ kind
  pub named : is_blank s.name ≡ false
  pub parentless : kind ≢ SymbolKind.label → s.parent ≡ ""

-- The destination that a rename has and a removal has not.
pub data IsDestination (is_blank : String → Bool) (c : Change) (kind : String)
    : Bool → Option Symbol → Type 0 where
  renamed :
      {to : Symbol}
      → IsSymbolFor is_blank to c.domain kind
      → c.from.name ≢ to.name
      → (kind ≡ SymbolKind.label → c.from.parent ≡ to.parent)
      → IsDestination is_blank c kind true (some to)
  removed : IsDestination is_blank c kind false none

-- The symbols of a change fit its domain and its kind.
pub record IsFitting (is_blank : String → Bool) (c : Change) (kind : String) : Type 0 where
  pub supported : domain_supports_kind c.domain kind ≡ true
  pub source : IsSymbolFor is_blank c.from c.domain kind
  pub parented : kind ≡ SymbolKind.label → is_blank c.from.parent ≡ false
  pub destination : IsDestination is_blank c kind (is_rename c.kind) c.to

pub record IsChange (is_blank : String → Bool) (c : Change) : Type 0 where
  pub known_domain : is_supported_domain c.domain ≡ true
  pub known_kind : is_supported_change_kind c.kind ≡ true
  pub fitting : IsFitting is_blank c (expected_symbol_kind c.kind)

-- Steps for "no issue is added exactly if".
pub append_iff {ℓ κ ν} :
    {A : Type ℓ} {P : Type κ} {Q : Type ν} {xs ys : List A}
    → (xs ≡ []) ↔ P
    → (ys ≡ []) ↔ Q
    → (xs ++ ys ≡ []) ↔ (P × Q)
append_iff {xs} {ys} (f, g) (h, k) = (
  λ e. let (a, b) = (append-eq-nil xs ys).0 e in (f a, h b),
  λ (p, q). (append-eq-nil xs ys).1 (g p, k q),
)

pub append_iff_given {ℓ κ ν} :
    {A : Type ℓ} {P : Type κ} {Q : Type ν} {xs ys : List A}
    → (xs ≡ []) ↔ P
    → (P → (ys ≡ []) ↔ Q)
    → (xs ++ ys ≡ []) ↔ (P × Q)
append_iff_given {xs} {ys} (f, g) h = (
  λ e. let (a, b) = (append-eq-nil xs ys).0 e in (f a, (h (f a)).0 b),
  λ (p, q). (append-eq-nil xs ys).1 (g p, (h p).1 q),
)

pub add_if_iff {κ} :
    {P : Type κ} {t : Bool} (p m : String) → (t ≡ false) ↔ P → (add_if t p m ≡ []) ↔ P
add_if_iff {t} p m (f, g) = (λ e. f ((add_if-eq-nil t p m).0 e), λ q. (add_if-eq-nil t p m).1 (g q))

pub iff_map {ℓ κ ν} : {A : Type ℓ} {B : Type κ} {C : Type ν} → A ↔ B → (B → C) → (C → B) → A ↔ C
iff_map (f, g) h k = (λ a. h (f a), λ c. g (k c))

pub not_same_iff : (s t : String) → (not (s == t) ≡ false) ↔ (s ≡ t)
not_same_iff s t = ground (arith, eq_iff s t)

parentless_iff :
    (kind parent : String)
    → (not (kind == SymbolKind.label) && not (parent == "") ≡ false)
      ↔ (kind ≢ SymbolKind.label → parent ≡ "")
parentless_iff kind parent = ground (arith, eq_iff kind SymbolKind.label, eq_iff parent "")

pub not-false_iff : (b : Bool) → (not b ≡ false) ↔ (b ≡ true)
not-false_iff b = ground arith

parented_iff :
    (kind : String) (b : Bool)
    → (kind == SymbolKind.label && b ≡ false) ↔ (kind ≡ SymbolKind.label → b ≡ false)
parented_iff kind b = ground (arith, eq_iff kind SymbolKind.label)

module _ (is_blank : String → Bool) where
  other_name_iff :
      (a b : String) → is_blank a ≡ false → (a == b && not (is_blank a) ≡ false) ↔ (a ≢ b)
  other_name_iff a b n = ground (arith, n, eq_iff a b)

same_parent_iff :
    (kind a b : String)
    → (kind == SymbolKind.label && not (a == b) ≡ false) ↔ (kind ≡ SymbolKind.label → a ≡ b)
same_parent_iff kind a b = ground (arith, eq_iff kind SymbolKind.label, eq_iff a b)

module _ (is_blank : String → Bool) (c : Change) (kind : String) where
  renamed_parts :
      {to : Symbol}
      → IsDestination is_blank c kind true (some to)
      → (IsSymbolFor is_blank to c.domain kind × (c.from.name ≢ to.name))
        × (kind ≡ SymbolKind.label → c.from.parent ≡ to.parent)
  renamed_parts (IsDestination.renamed a b d) = ((a, b), d)

  no_rename : {A : Type 0} → IsDestination is_blank c kind true none → A
  no_rename d = elim d [ ]

  no_removal : {A : Type 0} {to : Symbol} → IsDestination is_blank c kind false (some to) → A
  no_removal d = elim d [ ]

module _ (is_blank : String → Bool) (show : ℕ → String) (quote : String → String) where
  validate_symbol_iff :
      (path : String) (s : Symbol) (domain kind : String)
      → (validate_symbol is_blank show quote path s domain kind ≡ [])
        ↔ IsSymbolFor is_blank s domain kind
  unfolding validate_symbol
  validate_symbol_iff path s domain kind =
      iff_map
        (append_iff
          (append_iff
            (append_iff (add_if_iff _ _ (not_same_iff s.domain domain))
              (add_if_iff _ _ (not_same_iff s.kind kind)))
            (add_if_iff _ _ (λ n. n, λ n. n)))
          (add_if_iff _ _ (parentless_iff kind s.parent)))
        (λ (((a, b), c), d). record { same_domain = a; same_kind = b; named = c; parentless = d })
        (λ k. (((k.same_domain, k.same_kind), k.named), k.parentless))

  check_destination_iff :
      (path : String) (c : Change) (kind : String) (rename : Bool) (to : Option Symbol)
      → is_blank c.from.name ≡ false
      → (check_destination is_blank show quote path c kind rename to ≡ [])
        ↔ IsDestination is_blank c kind rename to
  unfolding check_destination add_if
  check_destination_iff path c kind true none n =
      (λ h. absurd (add_if-true _ _ h), no_rename is_blank c kind)
  check_destination_iff path c kind false none n = (λ h. IsDestination.removed, λ d. refl)
  check_destination_iff path c kind false (some to) n =
      (λ h. absurd (add_if-true _ _ h), no_removal is_blank c kind)
  check_destination_iff path c kind true (some to) n =
      iff_map
        (append_iff
          (append_iff (validate_symbol_iff (text (path ∷ ".to" ∷ [])) to c.domain kind)
            (add_if_iff _ _ (other_name_iff is_blank c.from.name to.name n)))
          (add_if_iff _ _ (same_parent_iff kind c.from.parent to.parent)))
        (λ ((a, b), d). IsDestination.renamed a b d) (renamed_parts is_blank c kind)

  check_symbols_iff :
      (path : String) (c : Change) (kind : String)
      → (check_symbols is_blank show quote path c kind ≡ []) ↔ IsFitting is_blank c kind
  unfolding check_symbols
  check_symbols_iff path c kind =
      iff_map
        (append_iff_given
          (append_iff
            (append_iff (add_if_iff _ _ (not-false_iff (domain_supports_kind c.domain kind)))
              (validate_symbol_iff (text (path ∷ ".from" ∷ [])) c.from c.domain kind))
            (add_if_iff _ _ (parented_iff kind (is_blank c.from.parent))))
          (λ ((a, b), d). check_destination_iff path c kind (is_rename c.kind) c.to b.named))
        (λ (((a, b), d), e). record { supported = a; source = b; parented = d; destination = e })
        (λ k. (((k.supported, k.source), k.parented), k.destination))

  -- The body of the loop accepts a change exactly if it is well formed.
  pub check_change_iff :
      (path : String) (c : Change)
      → (check_change is_blank show quote path c ≡ []) ↔ IsChange is_blank c
  unfolding check_change
  check_change_iff path c = elim (Bool-cases (is_supported_change_kind c.kind)) [
    | inr other ↦ rw other (
      λ h. absurd (add_if-true _ _ ((append-eq-nil (add_if _ _ _) (add_if true _ _)).0 h).1),
      λ k. absurd (false≢true (sym other ∙ k.known_kind)),
    )
    | inl known ↦ rw known (
        iff_map
          (append_iff (add_if_iff _ _ (not-false_iff (is_supported_domain c.domain)))
            (check_symbols_iff path c (expected_symbol_kind c.kind)))
          (λ (a, b). record { known_domain = a; known_kind = known; fitting = b })
          (λ k. (k.known_domain, k.fitting)))
  ]
