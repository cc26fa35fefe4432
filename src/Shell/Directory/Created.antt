-- ===== src/Shell/Directory/Created.antt =====
-- A socket that appears in the base directory, and one that vanishes.
use interview.Base.{
  ℕ, zero, suc, ◌+◌, ◌^◌, ◌<◌, ◌≡◌, ◌≢◌, refl, ap, ◌∙◌, inl, inr, Bool, true, false, Option, some,
  List, [], ◌∷◌, ◌++◌, map, length, length-append, take, arith, ◌==◌, Bool-cases, if◌then◌else◌,
  ◌>>=◌,
}
use interview.Base.Int.{ℤ, eqz}
use interview.Base.Apart.{Others, IsApart}
use interview.Base.Text.{strncmp_zero, unsigned_text}
use interview.AvlTree.{null, avl_tree_add_or_get}
use interview.AvlTree.Order.{in_order}
use interview.AvlTree.Operations
use interview.AvlTree.Operations.{avl_tree_add_or_get-Offer, avl_tree_get-Found}
use interview.AvlTree.Data.{data_at, update_data, put, in_order-update_data, update_data-IsValid}
use interview.AvlTree.Keys.{key_of, lookup}
use interview.HashMap.Values.{IsDistinct}
use interview.Shell.SocketName.{suffix, DriverDescription, socket_name}
use interview.Shell.SocketName.RoundTrip.{Lacks, parse_unix_socket_name-socket_name}
use interview.Shell.Clients.{ShellDriver, driver_hash}
use interview.Shell.Directory.{
  Clients, Allocation, find_duplicate, new_driver, append_driver, add_client, base_dir_smth_created,
}
use interview.AvlTree.Write.{first_at, data_at-first_at, or_else, initialized, Offer-Written}

-- the invariant of the clients
pub record IsRegistry (clients : Clients) : Type 0 where
  pub valid : Operations.IsValid clients
  pub unique : IsApart key_of (in_order clients.root)
  pub distinct : IsDistinct (in_order clients.root)

abbrev pub drivers_at : ℤ → Clients → Option (List ShellDriver)
drivers_at k clients = lookup k (in_order clients.root)

-- a name and a longer string that starts like it are not the same
differ :
    (a w : List ℕ) (c : ℕ) (t : List ℕ) (n : ℕ)
    → length a ≡ length w
    → Lacks 0 w
    → (c == 0) ≡ false
    → length a < n
    → strncmp_zero n a (w ++ c ∷ t) ≡ false
unfolding strncmp_zero
differ a w c t zero e l h m = absurd (omega (arith, m))
differ [] [] c t (suc n) e l h m = h
differ [] (y ∷ w) c t (suc n) e l h m = absurd (omega (arith, e))
differ (x ∷ a) [] c t (suc n) e l h m = absurd (omega (arith, e))
differ (x ∷ a) (y ∷ w) c t (suc n) e l h m =
    let rest = differ a w c t n (omega (arith, e)) l.1 h (omega (arith, m)) in
    elim (Bool-cases (x == y)) [
      | inl same ↦ let nul : (x == 0) ≡ false = ground (arith, l.0, same) in rw (same, nul) rest
      | inr other ↦ rw other refl
    ]

module _ (name : List ℕ) (slot : ℕ) (plain : Lacks 0 name) where
  abbrev file : List ℕ
  file = socket_name name slot

  abbrev ending : List ℕ
  ending = unsigned_text slot ++ b'.' ∷ suffix

  -- the description that the parser gives of the file
  abbrev described : DriverDescription
  described = record { driver_name = file; driver_name_len = length name; slot_number = slot }

  no_duplicate : (l : List ShellDriver) → find_duplicate described (length file) l ≡ false
  unfolding find_duplicate socket_name
  no_duplicate [] = refl
  no_duplicate (sd ∷ l) = elim (Bool-cases (length sd.name == length name)) [
    | inl same ↦
        let e : length sd.name ≡ length name = ground (arith, same) in
        let longer : length sd.name < length file =
          omega (arith, e, length-append name (b'.' ∷ ending)) in
        rw (same, differ sd.name name b'.' ending (length file) e plain refl longer)
          (no_duplicate l)
    | inr other ↦ rw other (no_duplicate l)
  ]

  abbrev joined : ShellDriver → List ShellDriver → List ShellDriver
  joined sd l = l ++ sd ∷ []

  abbrev pub hash : ℤ
  hash = driver_hash name slot

  -- the driver that is added, with the memory that is got
  abbrev pub driver_of : Allocation → ℕ → ShellDriver
  driver_of a usc = record { name = name; slot = slot; commands = a.commands_garbage; usc = usc }

  abbrev with_new : Bool → ℕ → Clients → Clients
  with_new b id t = if b then record t { root = update_data id (λ old. []) t.root } else t

  with_new-IsValid :
      (b : Bool) (id : ℕ) (t : Clients)
      → Operations.IsValid t
      → Operations.IsValid (with_new b id t)
  with_new-IsValid true id t v = update_data-IsValid id (λ old. []) t v
  with_new-IsValid false id t v = v

  in_order-with_new :
      (b : Bool) (id : ℕ) (t : Clients)
      → in_order (with_new b id t).root ≡ initialized b id [] (in_order t.root)
  in_order-with_new true id t = in_order-update_data id (λ old. []) t.root
  in_order-with_new false id t = refl

  -- what appearing does to the clients
  pub record Created (a : Allocation) (usc : ℕ) (before after : Clients) : Type 0 where
    pub registry : IsRegistry after
    pub looks :
        (k : ℤ)
        → drivers_at k after ≡ (
            if eqz hash k
            then some (or_else [] (drivers_at hash before) ++ driver_of a usc ∷ [])
            else drivers_at k before)

  module _ (a : Allocation) (usc : ℕ) (opened : a.usc ≡ some usc)
      (named : take (length name) file ≡ name) where
    append_driver-written :
        (id : ℕ) (t : Clients) (l : List ShellDriver)
        → data_at id t.root ≡ some l
        → append_driver described (length file) a id t
          ≡ some (record t { root = update_data id (joined (driver_of a usc)) t.root })
    unfolding append_driver new_driver
    append_driver-written id t l e =
        let no = no_duplicate l in rw (e, ◌>>=◌) (rw no (rw (opened, ◌>>=◌) (rw named refl)))

    add_client-Created :
        (clients : Clients)
        → IsRegistry clients
        → a.node_address ≢ null
        → Others (λ e. e.id) a.node_address (in_order clients.root)
        → clients.count + 1 < 2 ^ 64
        → (after : Clients) × (add_client described (length file) a clients ≡ some after)
          × Created a usc clients after
    unfolding add_client
    add_client-Created clients r allocated fresh room =
        let (t, id, b, e, valid, offer) =
          avl_tree_add_or_get-Offer a.node_address a.node_garbage clients hash r.valid allocated
            room in
        let hashed =
          ap (λ n. avl_tree_add_or_get a.node_address a.node_garbage clients (driver_hash n slot))
            named
          ∙ e in
        let w =
          Offer-Written a.node_address a.node_garbage hash [] (joined (driver_of a usc))
            (in_order clients.root) (in_order t.root) id b r.unique r.distinct fresh offer in
        let u = with_new b id t in
        let order = in_order-with_new b id t in
        let read : data_at id u.root ≡ some (or_else [] (drivers_at hash clients)) =
          data_at-first_at id u.root ∙ ap (first_at id) order ∙ w.reads in
        let written = append_driver-written id u (or_else [] (drivers_at hash clients)) read in
        let whole : in_order (update_data id (joined (driver_of a usc)) u.root)
            ≡ map (put id (joined (driver_of a usc))) (initialized b id [] (in_order t.root)) =
          in_order-update_data id (joined (driver_of a usc)) u.root
          ∙ ap (map (put id (joined (driver_of a usc)))) order in
        (
          record u { root = update_data id (joined (driver_of a usc)) u.root },
          rw (hashed, ◌>>=◌) written,
          record {
            registry = record {
              valid =
                  update_data-IsValid id (joined (driver_of a usc)) u
                    (with_new-IsValid b id t valid);
              unique = rw whole w.unique;
              distinct = rw whole w.distinct;
            };
            looks = λ k. ap (lookup k) whole ∙ w.looks k;
          },
        )

-- The socket of a driver that appears joins the shell's clients: for a name that is not empty and has
-- neither a dot, a slash nor a NUL, a slot of 32 bits, a registry of clients that is valid, memory for a
-- new node and an open socket, the shell does not abort; the list under the hash of the name and the slot
-- has the new driver at its end, and the lists under all other hashes stay. This holds whether or not
-- a driver of this name and slot is in the list. The registry is valid behind it.
pub base_dir_smth_created-Created :
    (is_socket : List ℕ → Bool) (allocate : Clients → Allocation) (name : List ℕ) (slot usc : ℕ)
    (clients : Clients) (plain : Lacks 0 name)
    → is_socket (socket_name name slot) ≡ true
    → Lacks b'.' name
    → Lacks b'/' name
    → 0 < length name
    → slot < 2 ^ 32
    → IsRegistry clients
    → (allocate clients).node_address ≢ null
    → Others (λ e. e.id) (allocate clients).node_address (in_order clients.root)
    → clients.count + 1 < 2 ^ 64
    → (allocate clients).usc ≡ some usc
    → (after : Clients) × (base_dir_smth_created is_socket allocate (socket_name name slot) clients
        ≡ some after)
      × Created name slot plain (allocate clients) usc clients after
unfolding base_dir_smth_created
base_dir_smth_created-Created is_socket allocate name slot usc clients plain socket dotless flat
      named small registry allocated fresh room opened =
    let (parsed, front) = parse_unix_socket_name-socket_name name slot dotless flat named small in
    let (after, e, created) =
      add_client-Created name slot plain (allocate clients) usc opened front clients registry
        allocated fresh room in
    (after, rw socket (rw (parsed, base_dir_smth_created) e), created)
