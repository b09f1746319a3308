-- ===== src/Transport/Receiver/Missing.antt =====
-- The missing indices of a mission, and the pages in which `resume` hands them out.
use low_altitude_io_t_system.Common.{
  ℕ, zero, suc, ◌+◌, ◌≤◌, ◌<◌, ◌≡◌, refl, sym, ap, ◌∙◌, true, Bool-cases, inl, inr, Option, none,
  some, List, [], ◌∷◌, ◌++◌, ltb, length, length-take, take, drop, nat_eq, arith,
}
use low_altitude_io_t_system.Common.Dict.{Dict, has_key}
use low_altitude_io_t_system.Common.Value.{Fields}
use low_altitude_io_t_system.Transport.Receiver.{
  Mission, missing_from, missing_indices, from, get_last?, Page, page_of,
}

missing_from_none :
    (i n j : ℕ) (items : Dict ℕ Fields)
    → missing_from i n items ≡ []
    → i ≤ j
    → j < i + n
    → has_key j items ≡ true
unfolding missing_from
missing_from_none i zero j items e lo hi = absurd (omega arith)
missing_from_none i (suc n) j items e lo hi =
    ground (arith, missing_from_none (i + 1) n j items, at_first)
  where
    at_first : i ≡ j → has_key i items ≡ has_key j items
    at_first p = ap (λ (k : ℕ). has_key k items) p

-- A mission with no missing index has an item at each index below its count.
pub complete_has_all :
    (m : Mission) (j : ℕ) → missing_indices m ≡ [] → j < m.item_count → has_key j m.items ≡ true
unfolding missing_indices
complete_has_all m j e h = missing_from_none 0 m.item_count j m.items e (omega arith) (omega arith)

-- Ascending from `lo` on, with no repetition.
abbrev pub Ascending : ℕ → List ℕ → Type 0
Ascending lo [] = Unit {0}
Ascending lo (i ∷ is) = (lo ≤ i) × Ascending (i + 1) is

Ascending-mono : (lo hi : ℕ) (is : List ℕ) → lo ≤ hi → Ascending hi is → Ascending lo is
Ascending-mono lo hi [] h a = tt
Ascending-mono lo hi (i ∷ is) h a = (omega arith, a.1)

missing_from-Ascending : (i n : ℕ) (items : Dict ℕ Fields) → Ascending i (missing_from i n items)
unfolding missing_from
missing_from-Ascending i zero items = tt
missing_from-Ascending i (suc n) items =
    let later = missing_from-Ascending (i + 1) n items in
    elim (Bool-cases (has_key i items)) [
      | inl there ↦
          rw there (Ascending-mono i (i + 1) (missing_from (i + 1) n items) (omega arith) later)
      | inr gone ↦ rw gone (omega arith, later)
    ]

pub missing_indices-Ascending : (m : Mission) → Ascending 0 (missing_indices m)
unfolding missing_indices
missing_indices-Ascending m = missing_from-Ascending 0 m.item_count m.items

from_all : (n lo : ℕ) (is : List ℕ) → n ≤ lo → Ascending lo is → from n is ≡ is
from_all n lo [] h a = refl
from_all n lo (i ∷ is) h a = ground (arith, from_all n (i + 1) is)

from-from : (a b : ℕ) (is : List ℕ) → a ≤ b → from b (from a is) ≡ from b is
from-from a b [] h = refl
from-from a b (i ∷ is) h = ground (arith, from-from a b is)

from-Ascending : (n lo : ℕ) (is : List ℕ) → Ascending lo is → Ascending n (from n is)
from-Ascending n lo [] a = tt
from-Ascending n lo (i ∷ is) a =
    ground (arith, from_all n (i + 1) is, from-Ascending n (i + 1) is a.1)

-- What follows the last index of a page is what the page left out.
after_page :
    (l lo last : ℕ) (is : List ℕ)
    → Ascending lo is
    → get_last? (take (suc l) is) ≡ some last
    → (from (last + 1) is ≡ drop (suc l) is) × (lo ≤ last)
after_page l lo last [] a e = absurd (cc)
after_page zero lo last (i ∷ is) a e = ground (arith, from_all (last + 1) (i + 1) is, a.1)
after_page (suc l) lo last (i ∷ []) a e = ground arith
after_page (suc l) lo last (i ∷ j ∷ is) a e = ground (arith, after_page l (i + 1) last (j ∷ is) a.1)

take_all : (l : ℕ) (is : List ℕ) → length is ≤ l → take l is ≡ is
take_all l [] h = elim l as (λ k. take {A = ℕ} k [] ≡ []) [ zero ↦ refl | suc k ↦ refl ]
take_all zero (i ∷ is) h = absurd (omega arith)
take_all (suc l) (i ∷ is) h = ap (λ (r : List ℕ). i ∷ r) (take_all l is (omega arith))

take-drop : (l : ℕ) (is : List ℕ) → take l is ++ drop l is ≡ is
take-drop zero is = refl
take-drop (suc l) [] = refl
take-drop (suc l) (i ∷ is) = ap (λ (r : List ℕ). i ∷ r) (take-drop l is)

last_of_taken :
    (l : ℕ) (is : List ℕ) → 0 < length is → (last : ℕ) × (get_last? (take (suc l) is) ≡ some last)
last_of_taken l [] h = absurd (omega arith)
last_of_taken zero (i ∷ is) h = (i, refl)
last_of_taken (suc l) (i ∷ []) h = (i, refl)
last_of_taken (suc l) (i ∷ j ∷ is) h = last_of_taken l (j ∷ is) (omega arith)

-- The page at an offset and what stands from its next offset on are what stands from the offset on.
abbrev pub Continues : ℕ → List ℕ → Page → Option ℕ → Type 0
Continues offset missing p none = p.indices ≡ from offset missing
Continues offset missing p (some next) =
    (p.indices ++ from next missing ≡ from offset missing) × (offset < next)

-- Paging through ascending indices, with room for at least one on a page, loses none and repeats
-- none: a page followed by what stands from its next offset on is what stood from the page's own
-- offset on, and the next offset is larger. A page with no next offset holds all that was left.
pub page_of-Continues :
    (offset l lo : ℕ) (missing : List ℕ)
    → Ascending lo missing
    → Continues offset missing
        (page_of offset (suc l) missing)
        (page_of offset (suc l) missing).next_offset
unfolding page_of
page_of-Continues offset l lo missing a =
    let left = from offset missing in
    let asc = from-Ascending offset lo missing a in
    elim (Bool-cases (ltb (length (take (suc l) left)) (length left))) [
      | inr all ↦ rw all (take_all (suc l) left (ground (arith, length-take (suc l) left)))
      | inl more ↦
          let (last, e) = last_of_taken l left (ground arith) in
          let (rest, low) = after_page l offset last left asc e in
          rw (more, e)
            (
              ap (λ (r : List ℕ). take (suc l) left ++ r)
                    (sym (from-from offset (last + 1) missing (omega arith)) ∙ rest)
                  ∙ take-drop (suc l) left,
              omega arith,
            )
    ]
