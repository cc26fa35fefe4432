-- ===== src/Shell/Directory/Listed.antt =====
-- A driver whose socket has appeared is found by a command, until its socket vanishes.
use mathlib.Core.Path.{subst}
use interview.Base.{
  ℕ, zero, suc, ◌^◌, ◌<◌, ◌≤◌, ◌≡◌, refl, sym, ap, ◌∙◌, inl, inr, true, ◌&&◌, ◌||◌, Option, none,
  some, List, [], ◌∷◌, ◌++◌, length, take, arith, ◌==◌, Bool-cases, if◌then◌else◌, some_inj,
}
use interview.Base.Int.{ℤ, eqz, eqz→eq}
use interview.Base.Text.{strncmp_zero, unsigned_text}
use interview.AvlTree.{Node, avl_tree_get}
use interview.AvlTree.Order.{in_order}
use interview.AvlTree.Operations.{avl_tree_get-Found}
use interview.AvlTree.Get.{Found}
use interview.AvlTree.Data.{update_data, in_order-update_data, update_data-IsValid}
use interview.AvlTree.Keys.{lookup, Found-lookup, eqz_refl}
use interview.Shell.SocketName.{suffix, DriverDescription, socket_name}
use interview.Shell.SocketName.RoundTrip.{Lacks, parse_unix_socket_name-socket_name}
use interview.Shell.Clients.{ShellDriver, driver_hash, find_driver}
use interview.Shell.Directory.{
  Clients, Allocation, remove_driver, remove_client, base_dir_smth_deleted,
}
use interview.AvlTree.Write.{or_else, Found-Written}
use interview.Shell.Directory.Created.{IsRegistry, drivers_at, Created, driver_of}

same_string : (n : ℕ) (a : List ℕ) → strncmp_zero n a a ≡ true
unfolding strncmp_zero
same_string zero a = refl
same_string (suc n) [] = refl
same_string (suc n) (x ∷ a) =
    let e : (x == x) ≡ true = ground arith in
    rw (e, same_string n a) (elim (Bool-cases (x == 0)) [ inl h ↦ rw h refl | inr h ↦ rw h refl ])

-- the first of two drivers
abbrev pub first_of : Option ShellDriver → ShellDriver → ShellDriver
first_of none sd = sd
first_of (some old) sd = old

pub find_driver-append :
    (drv : List ℕ) (slot : ℕ) (l : List ShellDriver) (sd : ShellDriver)
    → sd.name ≡ drv
    → sd.slot ≡ slot
    → find_driver drv slot (l ++ sd ∷ []) ≡ some (first_of (find_driver drv slot l) sd)
unfolding find_driver
find_driver-append drv slot [] sd n s =
    let size : (length drv == length drv) ≡ true = ground arith in
    let number : (slot == slot) ≡ true = ground arith in
    rw (n, s, size, same_string (length drv) drv, number) refl
find_driver-append drv slot (x ∷ l) sd n s =
    let rest = find_driver-append drv slot l sd n s in
    elim (Bool-cases (length x.name == length drv)) [
      | inr h ↦ rw h rest
      | inl h ↦ elim (Bool-cases (strncmp_zero (length drv) x.name drv && x.slot == slot)) [
        | inl e ↦ rw h (rw e refl)
        | inr e ↦ rw h (rw e rest)
      ]
    ]

-- what the search of the tree finds
pub get-lookup :
    (clients : Clients) (k : ℤ)
    → IsRegistry clients
    → drivers_at k clients ≡ elim (avl_tree_get clients k) [ none ↦ none | some n ↦ some n.payload ]
get-lookup clients k r =
    Found-lookup k (in_order clients.root) (avl_tree_get clients k) r.unique
      (avl_tree_get-Found clients k r.valid)

read_back :
    (o : Option (Node (List ShellDriver))) (l : List ShellDriver)
    → (elim o [ none ↦ none | some n ↦ some n.payload ]) ≡ some l
    → (atn : Node (List ShellDriver)) × (o ≡ some atn) × (atn.payload ≡ l)
read_back none l e = cc
read_back (some n) l e = (n, refl, some_inj e)

module _ (name : List ℕ) (slot : ℕ) (plain : Lacks 0 name) (a : Allocation) (usc : ℕ)
    (before after : Clients) (created : Created name slot plain a usc before after) where
  abbrev old_list : List ShellDriver
  old_list = or_else [] (drivers_at (driver_hash name slot) before)

  new_list :
      drivers_at (driver_hash name slot) after
      ≡ some (old_list ++ driver_of name slot plain a usc ∷ [])
  new_list = created.looks (driver_hash name slot) ∙ rw (eqz_refl (driver_hash name slot)) refl

  -- A driver whose socket has appeared is found by the two searches that a command makes for its name and
  -- slot, of the tree and of the list: the one that was there before under this name and slot, if
  -- any, else the new one.
  pub created-find_driver :
      (atn : Node (List ShellDriver)) × (avl_tree_get after (driver_hash name slot) ≡ some atn)
      × (find_driver name slot atn.payload
          ≡ some (first_of (find_driver name slot old_list) (driver_of name slot plain a usc)))
  created-find_driver =
      let (atn, e, p) =
        read_back (avl_tree_get after (driver_hash name slot))
          (old_list ++ driver_of name slot plain a usc ∷ [])
          (sym (get-lookup after (driver_hash name slot) created.registry) ∙ new_list) in
      (
        atn,
        e,
        ap (find_driver name slot) p
            ∙ find_driver-append name slot old_list (driver_of name slot plain a usc) refl refl,
      )

same_prefix :
    (n : ℕ) (a w t : List ℕ) → n ≤ length w → strncmp_zero n a (w ++ t) ≡ strncmp_zero n a w
unfolding strncmp_zero
same_prefix zero a w t h = refl
same_prefix (suc n) a [] t h = absurd (omega (arith, h))
same_prefix (suc n) [] (y ∷ w) t h = refl
same_prefix (suc n) (x ∷ a) (y ∷ w) t h =
    ap (λ b. x == y && (x == 0 || b)) (same_prefix n a w t (omega (arith, h)))

module _ (name : List ℕ) (slot : ℕ) (sd : ShellDriver) (same_name : sd.name ≡ name)
    (same_slot : sd.slot ≡ slot) where
  abbrev parsed_file : DriverDescription
  parsed_file = record {
    driver_name = socket_name name slot;
    driver_name_len = length name;
    slot_number = slot;
  }

  -- the test of the loop, for a driver whose name has the length
  test_name :
      (x : ShellDriver)
      → length x.name ≡ length name
      → strncmp_zero (length x.name) x.name (socket_name name slot)
        ≡ strncmp_zero (length name) x.name name
  unfolding socket_name
  test_name x e = rw e (
      same_prefix (length name) x.name name (b'.' ∷ (unsigned_text slot ++ b'.' ∷ suffix))
        (omega arith))

  -- the driver at the end is removed where none before it has the name and the slot
  remove_driver-last :
      (l : List ShellDriver)
      → find_driver name slot l ≡ none
      → remove_driver parsed_file (l ++ sd ∷ []) ≡ some l
  unfolding remove_driver find_driver
  remove_driver-last [] h =
      let size : (length sd.name == length name) ≡ true = ground (arith, ap length same_name) in
      let number : (sd.slot == slot) ≡ true = ground (arith, same_slot) in
      let test =
        test_name sd (ap length same_name)
        ∙ ap (λ w. strncmp_zero (length name) w name) same_name
        ∙ same_string (length name) name in
      rw (size, test, number) refl
  remove_driver-last (x ∷ l) h = elim (Bool-cases (length x.name == length name)) [
    | inr other ↦ rw (other, remove_driver-last l (rw other at h)) refl
    | inl size ↦
        let e : length x.name ≡ length name = ground (arith, size) in
        elim (Bool-cases (strncmp_zero (length name) x.name name && x.slot == slot)) [
          | inl hit ↦ let found = rw (size, hit) at h in cc
          | inr miss ↦
              let rest = remove_driver-last l (rw (size, miss) at h) in
              rw (size, test_name x e, miss, rest) refl
        ]
  ]

module _ (name : List ℕ) (slot : ℕ) (plain : Lacks 0 name) (a : Allocation) (usc : ℕ)
    (before after : Clients) (created : Created name slot plain a usc before after) where
  abbrev h : ℤ
  h = driver_hash name slot

  abbrev list_before : List ShellDriver
  list_before = or_else [] (drivers_at h before)

  removed :
      take (length name) (socket_name name slot) ≡ name
      → find_driver name slot list_before ≡ none
      → (atn : Node (List ShellDriver)) × (avl_tree_get after h ≡ some atn)
        × (remove_client (parsed_file name slot (driver_of name slot plain a usc) refl refl) after
            ≡ record after { root = update_data atn.id (λ old. list_before) after.root })
  unfolding remove_client
  removed front none_there =
      let sd = driver_of name slot plain a usc in
      let (atn, e, p) = read_back (avl_tree_get after h) (list_before ++ sd ∷ []) (
        sym (get-lookup after h created.registry)
        ∙ new_list name slot plain a usc before after created) in
      let gone =
        ap (remove_driver (parsed_file name slot sd refl refl)) p
        ∙ remove_driver-last name slot sd refl refl list_before none_there in
      let reached = ap (λ n. avl_tree_get after (driver_hash n slot)) front ∙ e in
      (atn, e, rw (reached, remove_client) (rw (gone, remove_client) refl))

  restored :
      (k : ℤ)
      → or_else [] (if eqz h k then some list_before else drivers_at k after)
        ≡ or_else [] (drivers_at k before)
  restored k = elim (Bool-cases (eqz h k)) [
    | inl here ↦ rw here (ap (λ j. or_else [] (drivers_at j before)) (eqz→eq h k here))
    | inr away ↦
        rw away (ap (or_else []) {y = drivers_at k before} (created.looks k ∙ rw away refl))
  ]

  -- A socket that has appeared and then vanishes leaves the shell's clients as they were: under
  -- every hash the same drivers are listed as before, in the same order, and the registry is valid.
  -- The name is as for `base_dir_smth_created`, and no driver of this name and slot was there before.
  pub base_dir_smth_deleted-created :
      Lacks b'.' name
      → Lacks b'/' name
      → 0 < length name
      → slot < 2 ^ 32
      → find_driver name slot list_before ≡ none
      → IsRegistry (base_dir_smth_deleted (socket_name name slot) after)
        × ((k : ℤ)
            → or_else [] (drivers_at k (base_dir_smth_deleted (socket_name name slot) after))
              ≡ or_else [] (drivers_at k before))
  unfolding base_dir_smth_deleted
  base_dir_smth_deleted-created dotless flat named small none_there =
      let (parsed, front) = parse_unix_socket_name-socket_name name slot dotless flat named small in
      let (atn, e, gone) = removed front none_there in
      let f : List ShellDriver → List ShellDriver = λ old. list_before in
      let found =
        subst (Found h (in_order after.root)) e
          (avl_tree_get-Found after h created.registry.valid) in
      let w =
        Found-Written h [] f (in_order after.root) atn created.registry.unique
          created.registry.distinct found in
      let order = in_order-update_data atn.id f after.root in
      let registry : IsRegistry (record after { root = update_data atn.id f after.root }) = record {
        valid = update_data-IsValid atn.id f after created.registry.valid;
        unique = rw order w.unique;
        distinct = rw order w.distinct;
      } in
      rw (parsed, base_dir_smth_deleted)
        (rw gone (registry, λ k. ap (or_else []) (ap (lookup k) order ∙ w.looks k) ∙ restored k))
