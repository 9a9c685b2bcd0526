-- ===== src/Tests/Tables.antt =====
-- uhashtable.c on tables of four cells, and on a sequence of calls from an empty table.
use utk.Prelude.{
  ==→eq, Bool-cases, List, Option, Returns, [], arith, endless, false, inl, inr, none, ok,
  out_of_bound, refl, some, subst, suc, sym, true, zero, ℕ, ◌<◌, ◌==◌, ◌∷◌, ◌≡◌, ◌≤◌,
}
use utk.UHashtable.{
  rehash, Slot, EntryArray, Table, home, uhash_64, hash_loop, is_grave, is_loaded, uhashtable_get,
  uhashtable_set, uhashtable_remove, remove_entry,
}
use utk.UHashtable.Ring.{rotated}
use utk.UHashtable.Probe.{home-lt}
use utk.UHashtable.Rehash.{Doubled, rehash-Doubled}
use utk.UHashtable.View.{count, Reach}
use utk.UHashtable.Valid.{IsTable, view}
use utk.UHashtable.Get.{reply, uhashtable_get-view}
use utk.UHashtable.Methods.{
  Stored, Dropped, SetResult, RemoveResult, uhashtable_set-view, uhashtable_remove-view,
}
use utk.UHashtable.Create.{Created, uhashtable_create, uhashtable_create-Created}
use utk.UHashtable.Limits.{remove_entry_stuck, uhashtable_get_endless}
use utk.Tests.Vectors.{granting}

abbrev under : ℕ → ℕ → Slot
under key value = some (record { address = 4096; key = key; value = value; is_used = true })

-- The key 1 stands in its home cell, 0.
abbrev cells : List Slot
cells = under 1 10 ∷ none ∷ none ∷ none ∷ []

abbrev cells_array : EntryArray
cells_array = record { address = 256; slots = cells }

abbrev one_entry : Table
one_entry = record {
  address = 128;
  entries = some cells_array;
  capacity = 4;
  size = 1;
  graveyard_size = 0;
}

home_of_one : home 1 4 ≡ 0
unfolding home uhash_64 hash_loop
home_of_one = refl

Reach-other_key : (q h : ℕ) → h < 4 → (1 == q) ≡ false → Reach q (rotated h cells)
Reach-other_key q zero lt e = refl
Reach-other_key q (suc zero) lt e = rw e
Reach-other_key q (suc (suc zero)) lt e = rw e
Reach-other_key q (suc (suc (suc zero))) lt e = rw e
Reach-other_key q (suc (suc (suc (suc h)))) lt e = absurd (omega arith)

one_entry-Reach : (q : ℕ) → Reach q (rotated (home q 4) cells)
one_entry-Reach q = elim (Bool-cases (1 == q)) [
  | inl it ↦
      subst (λ k. Reach k (rotated (home k 4) cells)) (==→eq 1 q it)
        (subst (λ h. Reach 1 (rotated h cells)) (sym home_of_one) refl)
  | inr other ↦ Reach-other_key q (home q 4) (home-lt q 4 (omega arith) (omega arith)) other
]

one_entry-IsTable : IsTable one_entry cells_array
one_entry-IsTable = record {
  array = refl;
  ring = record {
    fits = refl;
    positive = omega arith;
    small = omega arith;
    free = omega arith;
    reach = one_entry-Reach;
  };
}

uhashtable_get-view_example :
    (o : Option ℕ) × (view 4 cells 1 ≡ ok o)
    × (uhashtable_get granting (some one_entry) 1 true ≡ ok (reply o))
uhashtable_get-view_example = uhashtable_get-view granting one_entry cells_array one_entry-IsTable 1

uhashtable_set-view_example :
    Returns
      (SetResult granting (Stored granting one_entry cells_array 5 50 1))
      (uhashtable_set granting (some one_entry) 5 50 1)
unfolding is_loaded
uhashtable_set-view_example =
    uhashtable_set-view granting one_entry cells_array 5 50 1 one_entry-IsTable (omega arith) light
  where
    light : is_loaded one_entry ≡ false
    light = refl

uhashtable_remove-view_example :
    Returns
      (RemoveResult granting (Dropped granting one_entry cells_array 1 true 1))
      (uhashtable_remove granting (some one_entry) 1 true 1)
unfolding is_grave
uhashtable_remove-view_example =
    uhashtable_remove-view granting one_entry cells_array 1 true 1 one_entry-IsTable low
  where
    low : is_grave one_entry ≡ false
    low = refl

abbrev many_graves : Table
many_graves = record one_entry { graveyard_size = 2 }

remove_entry_stuck_example :
    remove_entry granting many_graves cells_array 1 true 1 ≡ ok (out_of_bound, many_graves, none, 1)
unfolding is_grave
remove_entry_stuck_example =
    remove_entry_stuck granting many_graves cells_array 1 true 1 refl (omega arith) full
  where
    full : is_grave many_graves ≡ true
    full = refl

abbrev full_array : EntryArray
full_array = record { address = 256; slots = under 1 10 ∷ under 3 30 ∷ [] }

abbrev full_table : Table
full_table = record one_entry { entries = some full_array; capacity = 2; size = 2 }

uhashtable_get_endless_example : uhashtable_get granting (some full_table) 5 true ≡ endless
uhashtable_get_endless_example =
    uhashtable_get_endless granting full_table full_array 5 refl refl (omega arith) (omega arith)
      refl refl

uhashtable_create-Created_example : Created ℕ true (uhashtable_create granting true true 1)
uhashtable_create-Created_example = uhashtable_create-Created granting true 1

cells_single : (q : ℕ) → count q cells ≤ 1
cells_single q = ground arith

rehash-Doubled_example :
    Returns (Doubled granting one_entry cells_array 1) (rehash granting one_entry cells_array 2 1)
rehash-Doubled_example =
    rehash-Doubled granting one_entry cells_array one_entry-IsTable cells_single (omega arith) 1
