-- ===== src/Shell/Directory/Searched.antt =====
-- supertel/task2/src/shell.c: what a command finds among the clients behind an appearance.
use interview.Base.{
  ℕ, ◌+◌, ◌^◌, ◌<◌, ◌≡◌, ◌≢◌, refl, sym, ap, ◌∙◌, inl, inr, Bool, true, ◌&&◌, ◌⊎◌, Option, none,
  some, List, [], ◌∷◌, ◌++◌, length, arith, ◌==◌, Bool-cases,
}
use interview.Base.Int.{ℤ, eqz, eqz→eq}
use interview.Base.Apart.{Others}
use interview.Base.Text.{strncmp_zero}
use interview.AvlTree.{Node, null, avl_tree_get}
use interview.AvlTree.Order.{in_order}
use interview.AvlTree.Keys.{eqz_refl}
use interview.Shell.SocketName.{socket_name}
use interview.Shell.SocketName.RoundTrip.{Lacks}
use interview.Shell.Clients.{ShellDriver, driver_hash, find_driver}
use interview.Shell.Directory.{Clients, Allocation, base_dir_smth_created}
use interview.AvlTree.Write.{or_else}
use interview.Shell.Directory.Created.{
  IsRegistry, drivers_at, Created, driver_of, base_dir_smth_created-Created,
}
use interview.Shell.Directory.Listed.{first_of, get-lookup, find_driver-append}

-- the two searches of `cmd_cmd`, of the tree and of the list
abbrev pub search : (drv : List ℕ) → (slot : ℕ) → Clients → Option ShellDriver
search drv slot clients = elim (avl_tree_get clients (driver_hash drv slot)) [
  | none ↦ none
  | some atn ↦ find_driver drv slot atn.payload
]

search-drivers_at :
    (drv : List ℕ) (slot : ℕ) (clients : Clients)
    → IsRegistry clients
    → search drv slot clients
      ≡ find_driver drv slot (or_else [] (drivers_at (driver_hash drv slot) clients))
unfolding find_driver
search-drivers_at drv slot clients r =
    go (avl_tree_get clients (driver_hash drv slot))
    ∙ sym (
        ap (λ o. find_driver drv slot (or_else [] o)) (get-lookup clients (driver_hash drv slot) r))
  where
    go :
        (o : Option (Node (List ShellDriver)))
        → (elim o [ none ↦ none | some atn ↦ find_driver drv slot atn.payload ])
          ≡ find_driver drv slot (or_else [] (elim o [ none ↦ none | some n ↦ some n.payload ]))
    go none = refl
    go (some atn) = refl

-- strings of one length that are equal for `strncmp`, where the first has no NUL
equal_strings :
    (a w : List ℕ) → length a ≡ length w → Lacks 0 a → strncmp_zero (length w) a w ≡ true → a ≡ w
unfolding strncmp_zero
equal_strings [] [] e l h = refl
equal_strings [] (y ∷ w) e l h = absurd (omega (arith, e))
equal_strings (x ∷ a) [] e l h = absurd (omega (arith, e))
equal_strings (x ∷ a) (y ∷ w) e l h = elim (Bool-cases (x == y)) [
  | inr other ↦ let no = rw other at h in cc
  | inl same ↦
      let head : x ≡ y = ground (arith, same) in
      let rest = equal_strings a w (omega (arith, e)) l.1 (rw (same, l.0) at h) in
      ap (λ z. z ∷ a) head ∙ ap (λ t. y ∷ t) rest
]

-- a driver of another name or slot at the end of the list is not found
find_driver-other :
    (drv : List ℕ) (slot : ℕ) (l : List ShellDriver) (sd : ShellDriver)
    → Lacks 0 sd.name
    → (drv ≢ sd.name) ⊎ (slot ≢ sd.slot)
    → find_driver drv slot (l ++ sd ∷ []) ≡ find_driver drv slot l
unfolding find_driver
find_driver-other drv slot (x ∷ l) sd plain differs =
    let rest = find_driver-other drv slot l sd plain differs in
    elim (Bool-cases (length x.name == length drv)) [
      | inr h ↦ rw h rest
      | inl h ↦ elim (Bool-cases (strncmp_zero (length drv) x.name drv && x.slot == slot)) [
        | inl e ↦ rw h (rw e refl)
        | inr e ↦ rw h (rw e rest)
      ]
    ]
find_driver-other drv slot [] sd plain differs = elim (Bool-cases (length sd.name == length drv)) [
  | inr h ↦ rw h refl
  | inl h ↦ elim (Bool-cases (strncmp_zero (length drv) sd.name drv)) [
    | inr e ↦ rw (h, e) refl
    | inl e ↦ elim (Bool-cases (sd.slot == slot)) [
      | inr f ↦ rw (h, e, f) refl
      | inl f ↦
          let size : length sd.name ≡ length drv = ground (arith, h) in
          let same = equal_strings sd.name drv size plain e in
          let number : slot ≡ sd.slot = ground (arith, f) in
          absurd (elim differs [ inl d ↦ d (sym same) | inr d ↦ d number ])
    ]
  ]
]

module _ (name : List ℕ) (slot : ℕ) (plain : Lacks 0 name) (a : Allocation) (usc : ℕ)
    (before after : Clients) (registry : IsRegistry before)
    (created : Created name slot plain a usc before after) where
  abbrev sd : ShellDriver
  sd = driver_of name slot plain a usc

  abbrev k : ℤ
  k = driver_hash name slot

  search-new : search name slot before ≡ none → search name slot after ≡ some sd
  search-new none_before =
      let old = or_else [] (drivers_at k before) in
      let list : drivers_at k after ≡ some (old ++ sd ∷ []) =
        created.looks k ∙ rw (eqz_refl k) refl in
      search-drivers_at name slot after created.registry
      ∙ ap (λ o. find_driver name slot (or_else [] o)) list
      ∙ find_driver-append name slot old sd refl refl
      ∙ ap (λ o. some (first_of o sd))
          (sym (search-drivers_at name slot before registry) ∙ none_before)

  search-other :
      (drv : List ℕ) (s : ℕ) → (drv ≢ name) ⊎ (s ≢ slot) → search drv s after ≡ search drv s before
  search-other drv s differs =
      let j = driver_hash drv s in
      let find : Option (List ShellDriver) → Option ShellDriver =
        λ o. find_driver drv s (or_else [] o) in
      let same : find (drivers_at j after) ≡ find (drivers_at j before) =
        elim (Bool-cases (eqz k j)) [
          | inr away ↦ ap find {y = drivers_at j before} (created.looks j ∙ rw away refl)
          | inl here ↦
              ap find {y = some (or_else [] (drivers_at k before) ++ sd ∷ [])}
                (created.looks j ∙ rw here refl)
              ∙ find_driver-other drv s (or_else [] (drivers_at k before)) sd plain differs
              ∙ ap (λ i. find (drivers_at i before)) (eqz→eq k j here)
        ] in
      search-drivers_at drv s after created.registry
      ∙ same
      ∙ sym (search-drivers_at drv s before registry)

-- A driver whose socket appears is found by the searches of a command for its name and slot, if none was
-- found before; the searches for any other name or slot find what they found before, also where
-- the hashes are the same. The driver's name is not empty and has neither a dot, a slash nor a NUL, the
-- slot has 32 bits, the registry of clients is valid with room for one more node, memory for a new node
-- is got, and the socket is there and opened.
pub base_dir_smth_created-search :
    (is_socket : List ℕ → Bool) (allocate : Clients → Allocation) (name : List ℕ) (slot usc : ℕ)
    (clients : Clients) (plain : Lacks 0 name) (drv : List ℕ) (s : ℕ)
    → is_socket (socket_name name slot) ≡ true
    → Lacks b'.' name
    → Lacks b'/' name
    → 0 < length name
    → slot < 2 ^ 32
    → IsRegistry clients
    → (allocate clients).node_address ≢ null
    → Others (λ e. e.id) (allocate clients).node_address (in_order clients.root)
    → clients.count + 1 < 2 ^ 64
    → (allocate clients).usc ≡ some usc
    → search name slot clients ≡ none
    → (drv ≢ name) ⊎ (s ≢ slot)
    → (after : Clients) × (base_dir_smth_created is_socket allocate (socket_name name slot) clients
        ≡ some after)
      × (search name slot after ≡ some (driver_of name slot plain (allocate clients) usc))
      × (search drv s after ≡ search drv s clients)
base_dir_smth_created-search is_socket allocate name slot usc clients plain drv s socket dotless
      flat named small registry allocated fresh room opened none_before differs =
    let (after, e, created) =
      base_dir_smth_created-Created is_socket allocate name slot usc clients plain socket dotless
        flat named small registry allocated fresh room opened in
    (
      after,
      e,
      search-new name slot plain (allocate clients) usc clients after registry created none_before,
      search-other name slot plain (allocate clients) usc clients after registry created drv s
          differs,
    )
