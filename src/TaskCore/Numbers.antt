-- ===== src/TaskCore/Numbers.antt =====
-- The numbers that new tasks get.
use playbook_harness.Base.{
  ℕ, ◌-◌, ◌≡◌, ◌⊎◌, inl, ◌≤◌, ◌<◌, refl, Bool, true, false, ◌&&◌, ◌||◌, ◌==◌, Option, none, some,
  List, [], ◌∷◌, arith, if◌then◌else◌,
}
use playbook_harness.TaskCore.{Item, number_of, larger_number, max_number, next_task_number}

abbrev pub number_is : ℕ → Option ℕ → Bool
number_is n none = false
number_is n (some m) = m == n

-- A directory has the number.
unfoldable pub taken : ℕ → List Item → Bool
taken n [] = false
taken n (i ∷ is) = (i.is_dir && number_is n (number_of i.name)) || taken n is

larger_number-bounds :
    (most n : ℕ) (o : Option ℕ)
    → (most ≤ larger_number most o) × ((number_is n o ≡ false) ⊎ (n ≤ larger_number most o))
larger_number-bounds most n none = ground arith
larger_number-bounds most n (some m) = ground arith

larger_number-attained :
    (most : ℕ) (o : Option ℕ)
    → (larger_number most o ≡ most) ⊎ (number_is (larger_number most o) o ≡ true)
larger_number-attained most none = inl refl
larger_number-attained most (some n) = ground arith

abbrev item_larger : ℕ → Item → ℕ
item_larger most i = if i.is_dir then larger_number most (number_of i.name) else most

max_number-bounds :
    (most n : ℕ) (is : List Item)
    → (most ≤ max_number most is) × ((taken n is ≡ false) ⊎ (n ≤ max_number most is))
unfolding max_number taken
max_number-bounds most n [] = ground arith
max_number-bounds most n (i ∷ is) = ground (
  arith,
  max_number-bounds (item_larger most i) n is,
  larger_number-bounds most n (number_of i.name),
)

max_number-attained :
    (most : ℕ) (is : List Item)
    → (max_number most is ≡ most) ⊎ (taken (max_number most is) is ≡ true)
unfolding max_number taken
max_number-attained most [] = inl refl
max_number-attained most (i ∷ is) = ground (
  arith,
  max_number-attained (item_larger most i) is,
  larger_number-attained most (number_of i.name),
)

-- Where a directory of a task has the number n, the next number is larger than n, and it is 1 or the
-- number before it is that of a directory.
pub next_task_number-fresh :
    (items : List Item) (n : ℕ)
    → taken n items ≡ true
    → (n < next_task_number (some items))
      × ((next_task_number (some items) ≡ 1)
          ⊎ (taken (next_task_number (some items) - 1) items ≡ true))
unfolding next_task_number
next_task_number-fresh items n h =
    ground (arith, max_number-bounds 0 n items, max_number-attained 0 items)
