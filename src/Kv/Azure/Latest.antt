-- ===== src/Kv/Azure/Latest.antt =====
-- What the scan of `GetLatestVersionOfSecret` finds.
use mathlib.Core.Path.{subst}
use unsealer.Prelude.{
  Bool, ◌≢◌, ap, ◌≡◌, ◌∙◌, sym, refl, true, false, List, [], ◌∷◌, ◌++◌, append_assoc, append-nil,
  arith, inl, inr, ◌⊎◌, All, Bool-cases,
}
use unsealer.Prelude.Int.{ℤ, pos, negsuc, ◌≤ℤ◌, ltb_ℤ}
use unsealer.Text.{Text, text_eq}
use unsealer.Effect.{ok}
use unsealer.Validation.{is_blank}
use unsealer.Kv.Azure.Base.{base, is_empty, is_empty-base}
use unsealer.Kv.Azure.Versions.{
  SecretItem, Versions, done, page, broken, to_string, Latest, no_version, latest_of, scan_item,
  scan_items, scan_pages,
}

-- The items of all pages.
abbrev pub listed : Versions → List SecretItem
listed done = []
listed (page items rest) = items ++ listed rest
listed (broken items e) = items

-- No page is missing.
abbrev pub is_complete : Versions → Bool
is_complete done = true
is_complete (page items rest) = is_complete rest
is_complete (broken items e) = false

-- One of the items is as recent as all of them, and the result is its.
abbrev pub IsLatest : Latest → List SecretItem → Type 0
IsLatest l items =
    (before : List SecretItem) × (item : SecretItem) × (after : List SecretItem) × (items
      ≡ before ++ (item ∷ after))
    × (l ≡ latest_of item)
    × All (λ other. other.created ≤ℤ item.created) items

-- One of the items is more recent than all others, and the result is its.
abbrev pub IsNewest : Latest → List SecretItem → Type 0
IsNewest l items =
    (before : List SecretItem) × (item : SecretItem) × (after : List SecretItem) × (items
      ≡ before ++ (item ∷ after))
    × (l ≡ latest_of item)
    × All (λ other. ltb_ℤ other.created item.created ≡ true) (before ++ after)

scan_items-append :
    (l : Latest) (s t : List SecretItem) → scan_items l (s ++ t) ≡ scan_items (scan_items l s) t
unfolding scan_items
scan_items-append l [] t = refl
scan_items-append l (item ∷ s) t = scan_items-append (scan_item l item) s t

scan_pages_ok :
    (l : Latest) (p : Versions) {r : Latest} → scan_pages l p ≡ ok r → r ≡ scan_items l (listed p)
unfolding scan_pages
scan_pages_ok l done h = unfold scan_items in cc h
scan_pages_ok l (page items rest) h =
    scan_pages_ok (scan_items l items) rest h ∙ sym (scan_items-append l items (listed rest))
scan_pages_ok l (broken items e) h = absurd (cc h)

pub is_complete-scan_pages :
    (l : Latest) (p : Versions) {r : Latest} → scan_pages l p ≡ ok r → is_complete p ≡ true
unfolding scan_pages
is_complete-scan_pages l done h = refl
is_complete-scan_pages l (page items rest) h = is_complete-scan_pages (scan_items l items) rest h
is_complete-scan_pages l (broken items e) h = absurd (cc h)

All-append {ℓ κ} : {A : Type ℓ} (P : A → Type κ) (s t : List A) → All P s → All P t → All P (s ++ t)
All-append P [] t h k = k
All-append P (x ∷ s) t h k = (h.0, All-append P s t h.1 k)

All-others {ℓ κ} :
    {A : Type ℓ} (P : A → Type κ) (s : List A) (x : A) (t : List A)
    → All P (s ++ (x ∷ t))
    → All P (s ++ t)
All-others P [] x t h = h.1
All-others P (y ∷ s) x t h = (h.0, All-others P s x t h.1)

All-map {ℓ κ} :
    {A : Type ℓ} (P Q : A → Type κ) → ((x : A) → P x → Q x) → (s : List A) → All P s → All Q s
All-map P Q f [] h = tt
All-map P Q f (x ∷ s) h = (f x h.0, All-map P Q f s h.1)

≤ℤ-trans : (a b c : ℤ) → a ≤ℤ b → b ≤ℤ c → a ≤ℤ c
≤ℤ-trans a b c h k = omega arith

≤ℤ-refl : (a : ℤ) → a ≤ℤ a
≤ℤ-refl a = omega arith

is_blank_eq : (s : Text) → is_blank s ≡ is_empty s
unfolding text_eq
is_blank_eq [] = refl
is_blank_eq (c ∷ s) = refl

is_blank-latest_of : (item : SecretItem) → is_blank (latest_of item).version ≡ false
unfolding latest_of
is_blank-latest_of item = is_blank_eq (base (to_string item.id)) ∙ is_empty-base (to_string item.id)

newer_lem :
    (l : Latest) (top item : SecretItem)
    → l ≡ latest_of top
    → ltb_ℤ top.created item.created ≡ true
    → scan_item l item ≡ latest_of item
unfolding scan_item latest_of
newer_lem l top item is newer = rw (is, newer) (ground (arith, is_blank-latest_of top))

older_lem :
    (l : Latest) (top item : SecretItem)
    → l ≡ latest_of top
    → ltb_ℤ top.created item.created ≡ false
    → scan_item l item ≡ latest_of top
unfolding scan_item latest_of
older_lem l top item is older = rw (is, older, is_blank-latest_of top) refl

older_first : (a b : SecretItem) → ltb_ℤ a.created b.created ≡ true → a.created ≤ℤ b.created
older_first a b h = ground arith

older_last : (a b : SecretItem) → ltb_ℤ a.created b.created ≡ false → b.created ≤ℤ a.created
older_last a b h = ground arith

IsLatest-item :
    (l : Latest) (seen : List SecretItem) (item : SecretItem)
    → IsLatest l seen
    → IsLatest (scan_item l item) (seen ++ (item ∷ []))
unfolding scan_item
IsLatest-item l seen item (before, top, after, at, is, all) =
    elim (Bool-cases (ltb_ℤ top.created item.created)) [
      | inl newer ↦ (
        seen,
        item,
        [],
        refl,
        newer_lem l top item is newer,
        All-append _ seen (item ∷ [])
            (All-map _ _
              (λ o h. ≤ℤ-trans o.created top.created item.created h (older_first top item newer))
              seen all)
            (≤ℤ-refl item.created, tt),
      )
      | inr older ↦ (
        before,
        top,
        after ++ (item ∷ []),
        rw at (append_assoc before (top ∷ after) (item ∷ [])),
        older_lem l top item is older,
        All-append _ seen (item ∷ []) all ((older_last top item older), tt),
      )
    ]

scan_from :
    (l : Latest) (seen items : List SecretItem)
    → IsLatest l seen
    → IsLatest (scan_items l items) (seen ++ items)
unfolding scan_items
scan_from l seen [] h = rw (append-nil seen) h
scan_from l seen (item ∷ items) h =
    rw (← append_assoc seen (item ∷ []) items)
      (scan_from (scan_item l item) (seen ++ (item ∷ [])) items (IsLatest-item l seen item h))

scan_first : (item : SecretItem) → scan_item no_version item ≡ latest_of item
unfolding scan_item text_eq
scan_first item = refl

-- If no page is missing, then the scan of the pages finds the latest version: none if no version is
-- listed, and otherwise that of a listed item which was created no earlier than any listed one.
pub scan_pages_latest :
    (p : Versions) {r : Latest}
    → scan_pages no_version p ≡ ok r
    → ((listed p ≡ []) × (r ≡ no_version)) ⊎ IsLatest r (listed p)
unfolding scan_items
scan_pages_latest p {r} h = latest (listed p) r (scan_pages_ok no_version p h)
  where
    latest :
        (items : List SecretItem) (r : Latest)
        → r ≡ scan_items no_version items
        → ((items ≡ []) × (r ≡ no_version)) ⊎ IsLatest r items
    latest [] r is = inl (refl, is)
    latest (item ∷ items) r is = inr (
        rw is (
          scan_from (scan_item no_version item) (item ∷ []) items
            ([], item, [], refl, scan_first item, (≤ℤ-refl item.created, tt))))

≤ℤ-antisym : (a b : ℤ) → a ≤ℤ b → b ≤ℤ a → a ≡ b
≤ℤ-antisym (pos m) (pos n) h k = let same : m ≡ n = omega arith in ap pos same
≤ℤ-antisym (pos m) (negsuc n) h k = absurd (omega arith)
≤ℤ-antisym (negsuc m) (pos n) h k = absurd (omega arith)
≤ℤ-antisym (negsuc m) (negsuc n) h k = let same : m ≡ n = omega arith in ap negsuc same

less_lem : (a b : ℤ) → a ≤ℤ b → a ≢ b → ltb_ℤ a b ≡ true
less_lem a b h differ = elim (Bool-cases (ltb_ℤ a b)) [
  | inl less ↦ less
  | inr not_less ↦ let back : b ≤ℤ a = ground arith in absurd (differ (≤ℤ-antisym a b h back))
]

strict :
    (item : SecretItem) (others : List SecretItem)
    → All (λ other. other.created ≤ℤ item.created) others
    → All (λ other. other.created ≢ item.created) others
    → All (λ other. ltb_ℤ other.created item.created ≡ true) others
strict item [] h k = tt
strict item (other ∷ others) h k =
    (less_lem other.created item.created h.0 k.0, strict item others h.1 k.1)

-- A latest version is the newest one if no two creation times are the same.
pub IsLatest-IsNewest :
    (l : Latest) (items : List SecretItem)
    → ((before : List SecretItem) (item : SecretItem) (after : List SecretItem)
        → items ≡ before ++ (item ∷ after)
        → All (λ other. other.created ≢ item.created) (before ++ after))
    → IsLatest l items
    → IsNewest l items
IsLatest-IsNewest l items distinct (before, item, after, at, is, all) = (
  before,
  item,
  after,
  at,
  is,
  strict item (before ++ after)
      (All-others _ before item after (subst (All (λ other. other.created ≤ℤ item.created)) at all))
      (distinct before item after at),
)
