-- ===== src/Shell/SocketName.antt =====
-- supertel/task2/src/shell.c and driver-core.c: the name of a driver's socket, as the driver prints it
-- and as the shell parses it. A name is the list of its bytes.
pub mod RoundTrip
use interview.Base.{
  ℕ, zero, suc, ◌+◌, ◌-◌, Bool, true, false, not, ◌&&◌, ◌||◌, Option, none, some, List, [], ◌∷◌,
  ◌++◌, length, take, drop, ◌==◌, if◌then◌else◌,
}
use interview.Base.Text.{codes, strncmp_zero, is_digit, unsigned_text, atoi}
use interview.HashFunctions.{element_at}

abbrev pub suffix : List ℕ
suffix = codes "drv"

abbrev pub base_dir : List ℕ
base_dir = codes "/tmp/driver"

-- `driver_description_t`; `driver_name` is the name from its first byte to the end of the file's name
pub record DriverDescription : Type 0 where
  pub driver_name : List ℕ
  pub driver_name_len : ℕ
  pub slot_number : ℕ

-- `while (back > 0 && name[back] != '/') -- back;`
unfoldable pub find_slash : List ℕ → (back : ℕ) → ℕ
find_slash name zero = zero
find_slash name (suc back) =
    let before = find_slash name back in
    if element_at name (suc back) == b'/' then suc back else before

-- how far the loop for `name_end` goes
unfoldable pub scan_name : List ℕ → ℕ
scan_name [] = 0
scan_name (c ∷ s) = let rest = scan_name s in if c == b'.' then 0 else suc rest

-- how far the loop for `slot_end` goes
unfoldable pub scan_slot : List ℕ → ℕ
scan_slot [] = 0
scan_slot (c ∷ s) = let rest = scan_slot s in if not (c == b'.') && is_digit c then suc rest else 0

-- for a name that is not empty, where `name_len - 1` is an index
unfoldable pub parse_unix_socket_name_ : List ℕ → Option DriverDescription
parse_unix_socket_name_ name =
    let name_len = length name in
    let name_start = find_slash name (name_len - 1) in
    let name_end = name_start + scan_name (drop name_start name) in
    let slot_start = name_end + 1 in
    let slot_end = slot_start + scan_slot (drop slot_start name) in
    if name_end == name_start || name_end == name_len
    then none
    else if slot_end == slot_start || slot_end == name_len || not (element_at name slot_end == b'.')
    then none
    else if not (name_len - slot_end == length suffix + 1)
    then none
    else if not (strncmp_zero (length suffix) (drop (slot_end + 1) name) suffix)
    then none
    else some (record {
      driver_name = drop name_start name;
      driver_name_len = name_end - name_start;
      slot_number = atoi (drop slot_start name);
    })

-- the type of a directory's entry, as far as the filter tells it
pub data EntryType : Type 0 where
  dt_sock : EntryType
  dt_other : EntryType

unfoldable pub socket_name_filter : EntryType → List ℕ → Bool
unfolding parse_unix_socket_name_
socket_name_filter dt_other name = false
socket_name_filter dt_sock name = elim (parse_unix_socket_name_ name) [
  | none ↦ false
  | some dd ↦ true
]

-- what `driver_core_init_` prints behind the directory, for a payload with this name and slot
unfoldable pub socket_name : (name : List ℕ) → (slot_number : ℕ) → List ℕ
socket_name name slot_number = name ++ b'.' ∷ (unsigned_text slot_number ++ b'.' ∷ suffix)

unfoldable pub socket_path : (name : List ℕ) → (slot_number : ℕ) → List ℕ
unfolding socket_name
socket_path name slot_number = base_dir ++ b'/' ∷ socket_name name slot_number
