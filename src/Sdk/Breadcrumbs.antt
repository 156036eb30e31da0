-- ===== src/Sdk/Breadcrumbs.antt =====
-- The ring buffer of breadcrumbs (packages/sdk/src/breadcrumbs.ts), over any type of entries.
-- An array's slots are a list of the array's length, with `none` for `null` and for a hole.
use replay_bug.Common.{
  ℕ, zero, suc, ◌+◌, ◌-◌, ◌%◌, min, max, ltb, ◌==◌, if◌then◌else◌, Option, none, some, List, [],
  ◌∷◌, length, get_elem?, set, drop, replicate,
}

pub record BreadcrumbBuffer {ℓ} (A : Type ℓ) : Type ℓ where
  pub buffer : List (Option A)
  pub capacity : ℕ
  pub head : ℕ
  pub size : ℕ
  pub dropped : ℕ

-- `TELEMETRY_LIMITS.MAX_BREADCRUMBS`
abbrev pub max_breadcrumbs : ℕ
max_breadcrumbs = 50

-- `slice(-n)`: for 0 that is `slice(0)`, the whole array.
unfoldable pub slice_last {ℓ} : {A : Type ℓ} → ℕ → List A → List A
slice_last n xs = if n == 0 then xs else drop (length xs - n) xs

module _ {ℓ} {A : Type ℓ} where
  -- The constructor, and `clear` but for the capacity that it keeps.
  unfoldable pub empty : ℕ → BreadcrumbBuffer A
  empty capacity = record {
    buffer = replicate capacity none;
    capacity = capacity;
    head = 0;
    size = 0;
    dropped = 0;
  }

  unfoldable pub create : ℕ → BreadcrumbBuffer A
  unfolding empty
  create capacity = empty (max 1 capacity)

  unfoldable pub add : BreadcrumbBuffer A → A → BreadcrumbBuffer A
  add b breadcrumb =
      let written = set b.buffer b.head (some breadcrumb) in
      let next = (b.head + 1) % b.capacity in
      if ltb b.size b.capacity
      then record b { buffer = written; head = next; size = b.size + 1 }
      else record b { buffer = written; head = next; dropped = b.dropped + 1 }

  -- `buffer[idx]`, where `undefined` and `null` are alike to `crumb != null`.
  abbrev pub slot : List (Option A) → ℕ → Option A
  slot buffer idx = elim (get_elem? buffer idx) [ none ↦ none | some crumb ↦ crumb ]

  -- The loop of `getAll` from `i` on, with `left` rounds to go.
  unfoldable pub collect : BreadcrumbBuffer A → ℕ → ℕ → ℕ → List (Option A)
  collect b start i zero = []
  collect b start i (suc left) =
      slot b.buffer ((start + i) % b.capacity) ∷ collect b start (suc i) left

  unfoldable pub get_all : BreadcrumbBuffer A → List (Option A)
  unfolding collect
  get_all b =
      if b.size == 0 then [] else collect b ((b.head + b.capacity - b.size) % b.capacity) 0 b.size

  unfoldable pub get_recent : BreadcrumbBuffer A → ℕ → List (Option A)
  unfolding slice_last
  get_recent b count = let all = get_all b in slice_last (min count (length all)) all

  unfoldable pub clear : BreadcrumbBuffer A → BreadcrumbBuffer A
  clear b = record {
    buffer = replicate (length b.buffer) none;
    capacity = b.capacity;
    head = 0;
    size = 0;
    dropped = 0;
  }

  unfoldable pub get_size : BreadcrumbBuffer A → ℕ
  get_size b = b.size

  unfoldable pub get_capacity : BreadcrumbBuffer A → ℕ
  get_capacity b = b.capacity

  unfoldable pub get_dropped_count : BreadcrumbBuffer A → ℕ
  get_dropped_count b = b.dropped

  unfoldable pub reset_dropped_count : BreadcrumbBuffer A → BreadcrumbBuffer A
  reset_dropped_count b = record b { dropped = 0 }
