-- ===== src/Sdk/BreadcrumbLaws.antt =====
-- The ring buffer against the history of the breadcrumbs that were added
-- (packages/sdk/src/breadcrumbs.ts).
use native.Mathlib.Nat.{
  zero-mod, mod-add-mod, mod-eq-sub-mod, mod_self, mod-mod, mod-lt, mod-eq_of_lt,
}
use mathlib.Core.Path.{ap₂}
use replay_bug.Common.{
  ℕ, zero, suc, ◌+◌, ◌-◌, ◌%◌, ◌≤◌, ◌<◌, min, max, ◌≡◌, ◌≢◌, refl, sym, ap, ◌∙◌, arith, ltb, leb,
  ◌==◌, Bool-cases, leb→le, inl, inr, Option, some, List, [], ◌∷◌, ◌++◌, map, length, get_elem?,
  set, drop, length-append, length-set, length-replicate, append-nil, append_assoc, subst,
  get_elem?-set_self, get_elem?-set_ne, get_elem?-append_left, get_elem?-append_here,
  get_elem?-drop, drop-all, length-drop, length-map,
}
use replay_bug.Sdk.Breadcrumbs.{
  BreadcrumbBuffer, slice_last, create, add, slot, collect, get_all, get_recent,
}

-- Two positions less than a capacity apart have different slots.
mod-ne : (j n c : ℕ) → j < n → n < j + c → j % c ≢ n % c
mod-ne j n c h k e = grind arith

mod_back : (n i c : ℕ) → c ≤ n → (n + i) % c ≡ (n - c + i) % c
mod_back n i c h =
    let e : n + i - c ≡ n - c + i = omega arith in
    let back : (n + i) % c ≡ (n + i - c) % c = mod-eq-sub-mod (omega arith) in
    back ∙ ap (λ (k : ℕ). k % c) e

-- The slot of the `i`-th entry that is kept, of `n` that were added.
slot_index : (n i c : ℕ) → 0 < c → ((n % c + c - min c n) % c + i) % c ≡ (n - min c n + i) % c
slot_index n i c pos = elim (Bool-cases (leb c n)) [
  | inl full ↦
      let h : c ≤ n = leb→le c n full in
      let m : min c n ≡ c = omega arith in
      let out : n % c + c - c ≡ n % c = omega arith in
      rw (m, out, mod-mod n c, mod-add-mod n c i) (mod_back n i c h)
  | inr partial ↦
      let h : n < c = ground arith in
      let m : min c n ≡ n = omega arith in
      let here : n % c ≡ n = mod-eq_of_lt h in
      let out : n + c - n ≡ c = omega arith in
      let zero_out : n - n ≡ 0 = omega arith in rw (m, here, out, mod_self c, zero_out)
]

module _ {ℓ} {A : Type ℓ} where
  -- The buffer holds the newest entries of a history, oldest first.
  pub record Holds (b : BreadcrumbBuffer A) (hs : List A) : Type ℓ where
    pub room : 0 < b.capacity
    pub wide : length b.buffer ≡ b.capacity
    pub at_head : b.head ≡ length hs % b.capacity
    pub counted : b.size ≡ min b.capacity (length hs)
    pub lost : b.dropped ≡ length hs - b.capacity
    pub kept :
        (j : ℕ)
        → j < length hs
        → length hs ≤ j + b.capacity
        → get_elem? b.buffer (j % b.capacity) ≡ some (get_elem? hs j)

  pub create-Holds : (capacity : ℕ) → Holds (create capacity) []
  unfolding create
  create-Holds capacity = record {
    room = omega arith;
    wide = length-replicate _ _;
    at_head = sym (zero-mod _);
    counted = omega arith;
    lost = omega arith;
    kept = λ j h _. elim h [ ];
  }

  add_kept :
      (b : BreadcrumbBuffer A) (hs : List A) (x : A)
      → Holds b hs
      → (j : ℕ) → j < length hs + 1
      → length hs + 1 ≤ j + b.capacity
      → get_elem? (set b.buffer b.head (some x)) (j % b.capacity)
        ≡ some (get_elem? (hs ++ (x ∷ [])) j)
  add_kept b hs x holds j h k = elim (Bool-cases (ltb j (length hs))) [
    | inl old ↦
        let lt : j < length hs = ground arith in
        let other : b.head ≢ j % b.capacity =
          λ e. mod-ne j (length hs) b.capacity lt (omega arith) (sym e ∙ holds.at_head) in
        get_elem?-set_ne b.buffer b.head (j % b.capacity) (some x) other
        ∙ holds.kept j lt (omega arith)
        ∙ ap some (sym (get_elem?-append_left hs (x ∷ []) j lt))
    | inr new ↦
        let e : j ≡ length hs = ground arith in
        let at : j % b.capacity ≡ b.head = ap (λ (k : ℕ). k % b.capacity) e ∙ sym holds.at_head in
        let inside : b.head < length b.buffer =
          omega (arith, holds.at_head, holds.wide, holds.room, mod-lt (length hs) holds.room) in
        ap (get_elem? (set b.buffer b.head (some x))) at
        ∙ get_elem?-set_self b.buffer b.head (some x) inside
        ∙ ap some (sym (ap (get_elem? (hs ++ (x ∷ []))) e ∙ get_elem?-append_here hs x))
  ]

  -- The fields that a write sets whether the buffer is full or not.
  add_head :
      (b : BreadcrumbBuffer A) (hs : List A) (x : A)
      → Holds b hs
      → (b.head + 1) % b.capacity ≡ length (hs ++ (x ∷ [])) % b.capacity
  add_head b hs x holds =
      ap (λ (k : ℕ). (k + 1) % b.capacity) holds.at_head
      ∙ mod-add-mod (length hs) b.capacity 1
      ∙ ap (λ (k : ℕ). k % b.capacity) (sym (length-append hs (x ∷ [])))

  written :
      (b b' : BreadcrumbBuffer A) (hs : List A) (x : A)
      → Holds b hs
      → b'.buffer ≡ set b.buffer b.head (some x)
      → b'.capacity ≡ b.capacity
      → b'.head ≡ (b.head + 1) % b.capacity
      → b'.size ≡ min b.capacity (length hs + 1)
      → b'.dropped ≡ length hs + 1 - b.capacity
      → Holds b' (hs ++ (x ∷ []))
  written b b' hs x holds buffer capacity head size dropped =
      let longer : length (hs ++ (x ∷ [])) ≡ length hs + 1 = length-append hs (x ∷ []) in
      record {
        room = omega (arith, holds.room);
        wide = ap length buffer ∙ length-set b.buffer b.head (some x) ∙ holds.wide ∙ sym capacity;
        at_head = rw capacity (head ∙ add_head b hs x holds);
        counted = omega (arith, longer);
        lost = omega (arith, longer);
        kept = λ j h k.
            ap (λ c. get_elem? b'.buffer (j % c)) capacity
            ∙ ap (λ buf. get_elem? buf (j % b.capacity)) buffer
            ∙ add_kept b hs x holds j (omega (arith, longer)) (omega (arith, longer));
      }

  -- Adding a breadcrumb extends the history by it.
  pub add-Holds :
      (b : BreadcrumbBuffer A) (hs : List A) (x : A) → Holds b hs → Holds (add b x) (hs ++ (x ∷ []))
  unfolding add
  add-Holds b hs x holds = elim (Bool-cases (ltb b.size b.capacity)) [
    | inl room_left ↦ rw room_left (
        written b
          (record b {
            buffer = set b.buffer b.head (some x);
            head = (b.head + 1) % b.capacity;
            size = b.size + 1;
          })
          hs x holds refl refl refl (ground (arith, holds.counted, holds.lost))
          (ground (arith, holds.counted, holds.lost)))
    | inr full ↦ rw full (
        written b
          (record b {
            buffer = set b.buffer b.head (some x);
            head = (b.head + 1) % b.capacity;
            dropped = b.dropped + 1;
          })
          hs x holds refl refl refl (ground (arith, holds.counted, holds.lost))
          (ground (arith, holds.counted, holds.lost)))
  ]

  slot_of :
      (buf : List (Option A)) (n : ℕ) {o : Option A} {x : A}
      → get_elem? buf n ≡ some o
      → o ≡ some x
      → slot buf n ≡ some x
  slot_of buf n e f = rw (e, slot) f

  -- From a position on, the loop of `getAll` reads the history.
  collect_lem :
      (b : BreadcrumbBuffer A) (hs : List A)
      → Holds b hs
      → (i left : ℕ) → i + left ≡ min b.capacity (length hs)
      → collect b ((b.head + b.capacity - b.size) % b.capacity) i left
        ≡ map some (drop (length hs - min b.capacity (length hs) + i) hs)
  unfolding collect
  collect_lem b hs holds i zero e =
      ap (map some) (sym (drop-all (length hs - min b.capacity (length hs) + i) hs (omega arith)))
  collect_lem b hs holds i (suc left) e =
      let kept = min b.capacity (length hs) in
      let k : ℕ = length hs - kept + i in
      let (x, at, split) = get_elem?-drop hs k (omega (arith, holds.room)) in
      let index : ((b.head + b.capacity - b.size) % b.capacity + i) % b.capacity ≡ k % b.capacity =
        ap₂ (λ (h s : ℕ). ((h + b.capacity - s) % b.capacity + i) % b.capacity) holds.at_head
          holds.counted
        ∙ slot_index (length hs) i b.capacity holds.room in
      let here : slot b.buffer (((b.head + b.capacity - b.size) % b.capacity + i) % b.capacity)
          ≡ some x =
        ap (slot b.buffer) index
        ∙ slot_of b.buffer (k % b.capacity) (holds.kept k (omega arith) (omega arith)) at in
      ap₂ (λ h t. h ∷ t) here (collect_lem b hs holds (suc i) left (omega arith) ∙ shifted kept i)
      ∙ sym (ap (map some) split)
    where
      shifted :
          (kept i : ℕ)
          → map some (drop (length hs - kept + suc i) hs)
            ≡ map some (drop (suc (length hs - kept + i)) hs)
      shifted kept i =
          let e : length hs - kept + suc i ≡ suc (length hs - kept + i) = omega arith in
          ap (λ (n : ℕ). map some (drop n hs)) e

  get_all-eq :
      (b : BreadcrumbBuffer A) (hs : List A)
      → Holds b hs
      → get_all b ≡ map some (drop (length hs - b.capacity) hs)
  unfolding get_all
  get_all-eq b hs holds = elim (Bool-cases (b.size == 0)) [
    | inl none_kept ↦
        let zero_size : b.size ≡ 0 = ground arith in
        rw none_kept (
          ap (map some)
            (sym (drop-all (length hs - b.capacity) hs (omega (arith, holds.counted, holds.room)))))
    | inr some_kept ↦
        let first : length hs - min b.capacity (length hs) + 0 ≡ length hs - b.capacity =
          omega arith in
        rw some_kept (
          collect_lem b hs holds 0 b.size (omega (arith, holds.counted))
          ∙ ap (λ (n : ℕ). map some (drop n hs)) first)
  ]

  pub adds : BreadcrumbBuffer A → List A → BreadcrumbBuffer A
  adds b [] = b
  adds b (x ∷ xs) = adds (add b x) xs

  adds-capacity : (b : BreadcrumbBuffer A) (xs : List A) → (adds b xs).capacity ≡ b.capacity
  unfolding adds add
  adds-capacity b [] = refl
  adds-capacity b (x ∷ xs) = adds-capacity (add b x) xs ∙ ground arith

  adds-Holds : (b : BreadcrumbBuffer A) (hs xs : List A) → Holds b hs → Holds (adds b xs) (hs ++ xs)
  unfolding adds
  adds-Holds b hs [] holds = subst (Holds b) (sym (append-nil hs)) holds
  adds-Holds b hs (x ∷ xs) holds =
      subst (Holds (adds (add b x) xs)) (append_assoc hs (x ∷ []) xs)
        (adds-Holds (add b x) (hs ++ (x ∷ [])) xs (add-Holds b hs x holds))

drop-map {ℓ} :
    {A B : Type ℓ} (f : A → B) (n : ℕ) (xs : List A) → drop n (map f xs) ≡ map f (drop n xs)
drop-map f zero xs = refl
drop-map f (suc n) [] = refl
drop-map f (suc n) (x ∷ xs) = drop-map f n xs

drop-drop {ℓ} : {A : Type ℓ} (n m : ℕ) (xs : List A) → drop n (drop m xs) ≡ drop (m + n) xs
drop-drop n zero xs = let e : zero + n ≡ n = omega arith in ap (λ (k : ℕ). drop k xs) (sym e)
drop-drop n (suc m) [] = drop-all n [] (omega arith) ∙ sym (drop-all (suc m + n) [] (omega arith))
drop-drop n (suc m) (x ∷ xs) =
    let e : suc m + n ≡ suc (m + n) = omega arith in
    drop-drop n m xs ∙ ap (λ (k : ℕ). drop k (x ∷ xs)) (sym e)

slice_last_pos {ℓ} :
    {A : Type ℓ} (count : ℕ) (xs : List A)
    → slice_last (min (suc count) (length xs)) xs
      ≡ drop (length xs - min (suc count) (length xs)) xs
unfolding slice_last
slice_last_pos count [] = ground arith
slice_last_pos count (x ∷ xs) = ground arith

slice_last_zero {ℓ} : {A : Type ℓ} (xs : List A) → slice_last (min 0 (length xs)) xs ≡ xs
unfolding slice_last
slice_last_zero xs = let e : min 0 (length xs) ≡ 0 = omega arith in rw e

module _ {ℓ} {A : Type ℓ} where
  -- After any breadcrumbs, `getAll` returns the newest of them, as many as the capacity (at least
  -- one) allows, oldest first and with no hole; and the entries before them are counted as dropped.
  pub get_all-adds :
      (capacity : ℕ) (xs : List A)
      → (get_all (adds (create capacity) xs) ≡ map some (drop (length xs - max 1 capacity) xs))
        × ((adds (create capacity) xs).dropped ≡ length xs - max 1 capacity)
  unfolding create
  get_all-adds capacity xs =
      let b = adds (create capacity) xs in
      let holds : Holds b xs = adds-Holds (create capacity) [] xs (create-Holds capacity) in
      let cap : b.capacity ≡ max 1 capacity = adds-capacity (create capacity) xs in
      (
        get_all-eq b xs holds ∙ ap (λ (c : ℕ). map some (drop (length xs - c) xs)) cap,
        holds.lost ∙ ap (λ (c : ℕ). length xs - c) cap,
      )

  -- `getRecent`, after any breadcrumbs: with a positive count it returns that many of the newest,
  -- or as many as are kept, oldest first. With 0 it returns all that are kept, and not none.
  pub get_recent_lem :
      (capacity : ℕ) (xs : List A) (count : ℕ)
      → (get_recent (adds (create capacity) xs) (suc count)
          ≡ map some (drop (length xs - min (suc count) (max 1 capacity)) xs))
        × (get_recent (adds (create capacity) xs) 0
            ≡ map some (drop (length xs - max 1 capacity) xs))
  unfolding get_recent
  get_recent_lem capacity xs count =
      let all = get_all (adds (create capacity) xs) in
      let (held, lost) = get_all-adds capacity xs in
      let gone : ℕ = length xs - max 1 capacity in
      let size : length all ≡ length xs - gone =
        ap length held ∙ length-map some (drop gone xs) ∙ length-drop gone xs in
      let skip : ℕ = length all - min (suc count) (length all) in
      let place : gone + skip ≡ length xs - min (suc count) (max 1 capacity) =
        omega (arith, size) in
      (
        slice_last_pos count all
            ∙ ap (drop skip) held
            ∙ drop-map some skip (drop gone xs)
            ∙ ap (map some) (drop-drop skip gone xs)
            ∙ ap (λ (n : ℕ). map some (drop n xs)) place,
        slice_last_zero all ∙ held,
      )
