-- ===== src/Master/Slaves.antt =====
-- The slaves' tree under the master's handlers, as a map from addresses to what the slaves have told.
use mathlib.Core.Path.{subst}
use interview.Base.{
  ℕ, ◌+◌, ◌-◌, ◌%◌, ◌^◌, ◌<◌, ◌≡◌, ◌≢◌, refl, sym, ap, ◌∙◌, true, Option, none, some, List, map,
  length, if◌then◌else◌,
}
use interview.Base.Int.{ℤ, pos, eqz, ◌+ℤ◌, ◌-ℤ◌}
use interview.Base.Apart.{Others, IsApart}
use interview.AvlTree.{Node, null, AvlTree, avl_tree_get}
use interview.AvlTree.Order.{Entry, in_order}
use interview.AvlTree.Get.{Found, miss}
use interview.AvlTree.Operations
use interview.AvlTree.Operations.{avl_tree_add-insert_entry, avl_tree_get-Found}
use interview.AvlTree.Data.{update_data, put, in_order-update_data, update_data-IsValid}
use interview.AvlTree.Keys.{key_of, lookup, lookup-absent, Found-lookup}
use interview.HashMap.Values.{IsDistinct}
use interview.AvlTree.Write.{or_else, Written, initialized, Written-new, Found-Written}
use interview.Protocol.{byte, pr_response, to_int8}
use interview.Master.{
  Description, Master, zero_description, find_slave, master_update_slave, master_calculate_averages,
  master_act,
}
use interview.Master.Update.{informs, master_act-response}

-- the invariant of the slaves: the tree is valid, with one node for each address
pub record IsNetwork (slaves : AvlTree Description) : Type 0 where
  pub valid : Operations.IsValid slaves
  pub unique : IsApart key_of (in_order slaves.root)
  pub distinct : IsDistinct (in_order slaves.root)

-- what the slave at an address has told
abbrev pub told : ℕ → AvlTree Description → Option Description
told ip slaves = lookup (pos ip) (in_order slaves.root)

-- what it counts for in the sums
abbrev pub counted : ℕ → AvlTree Description → Description
counted ip slaves = or_else zero_description (told ip slaves)

-- an entry is written in a tree that has it
update_data-IsNetwork :
    (ip id : ℕ) (sd : Description) (slaves : AvlTree Description) (xs ys : List (Entry Description))
    → Operations.IsValid slaves
    → in_order slaves.root ≡ ys
    → Written (pos ip) zero_description (λ old. sd) xs id ys (map (put id (λ old. sd)) ys)
    → IsNetwork (record slaves { root = update_data id (λ old. sd) slaves.root })
      × ((k : ℕ)
          → told k (record slaves { root = update_data id (λ old. sd) slaves.root })
            ≡ (if eqz (pos ip) (pos k) then some sd else lookup (pos k) xs))
update_data-IsNetwork ip id sd slaves xs ys v order w =
    let whole : in_order (update_data id (λ old. sd) slaves.root) ≡ map (put id (λ old. sd)) ys =
      in_order-update_data id (λ old. sd) slaves.root ∙ ap (map (put id (λ old. sd))) order in
    (
      record {
        valid = update_data-IsValid id (λ old. sd) slaves v;
        unique = rw whole w.unique;
        distinct = rw whole w.distinct;
      },
      λ k. ap (lookup (pos k)) whole ∙ w.looks (pos k),
    )

-- the slave's node, and a write to it
record Reached (fresh : ℕ) (garbage : Description) (slaves : AvlTree Description) (ip : ℕ)
    (sd : Description) : Type 0 where
  tree : AvlTree Description
  id : ℕ
  returns : find_slave fresh garbage slaves ip ≡ some (tree, id, counted ip slaves)
  network : IsNetwork (record tree { root = update_data id (λ old. sd) tree.root })
  tells :
      (k : ℕ)
      → told k (record tree { root = update_data id (λ old. sd) tree.root })
        ≡ (if eqz (pos ip) (pos k) then some sd else told k slaves)

module _ (fresh : ℕ) (garbage : Description) (slaves : AvlTree Description) (ip : ℕ)
    (sd : Description) (network : IsNetwork slaves) (allocated : fresh ≢ null)
    (new : Others (λ e. e.id) fresh (in_order slaves.root)) (room : slaves.count + 1 < 2 ^ 64) where
  abbrev entries : List (Entry Description)
  entries = in_order slaves.root

  find_slave-here :
      (n : Node Description)
      → avl_tree_get slaves (pos ip) ≡ some n
      → Found (pos ip) entries (some n)
      → Reached fresh garbage slaves ip sd
  unfolding find_slave
  find_slave-here n e f =
      let old : told ip slaves ≡ some n.payload =
        Found-lookup (pos ip) entries (some n) network.unique f in
      let w =
        Found-Written (pos ip) zero_description (λ old. sd) entries n network.unique
          network.distinct f in
      let written = update_data-IsNetwork ip n.id sd slaves entries entries network.valid refl w in
      record {
        tree = slaves;
        id = n.id;
        returns =
            rw (e, find_slave)
              (ap (λ o. some (slaves, n.id, or_else zero_description o)) (sym old));
        network = written.0;
        tells = written.1;
      }

  find_slave-added :
      avl_tree_get slaves (pos ip) ≡ none
      → Others key_of (pos ip) entries
      → Reached fresh garbage slaves ip sd
  unfolding find_slave
  find_slave-added e absent =
      let (t, added, valid, order) =
        avl_tree_add-insert_entry fresh garbage slaves (pos ip) network.valid allocated room in
      let zeroed : AvlTree Description = record t {
        root = update_data fresh (λ old. zero_description) t.root;
      } in
      let w =
        Written-new fresh garbage (pos ip) zero_description (λ old. sd) entries (in_order t.root)
          absent new order network.unique network.distinct in
      let written =
        update_data-IsNetwork ip fresh sd zeroed entries
          (initialized true fresh zero_description (in_order t.root))
          (update_data-IsValid fresh (λ old. zero_description) t valid)
          (in_order-update_data fresh (λ old. zero_description) t.root) w in
      let nothing : told ip slaves ≡ none = lookup-absent (pos ip) entries absent in
      record {
        tree = zeroed;
        id = fresh;
        returns =
            rw (e, find_slave)
              (rw added (ap (λ o. some (zeroed, fresh, or_else zero_description o)) (sym nothing)));
        network = written.0;
        tells = written.1;
      }

  reached : Reached fresh garbage slaves ip sd
  reached =
      go (avl_tree_get slaves (pos ip)) refl (avl_tree_get-Found slaves (pos ip) network.valid)
    where
      go :
          (o : Option (Node Description))
          → avl_tree_get slaves (pos ip) ≡ o
          → Found (pos ip) entries (avl_tree_get slaves (pos ip))
          → Reached fresh garbage slaves ip sd
      go (some n) e f = find_slave-here n e (subst (Found (pos ip) entries) e f)
      go none e f = find_slave-added e (missed (subst (Found (pos ip) entries) e f))
        where
          missed : Found (pos ip) entries none → Others key_of (pos ip) entries
          missed (miss a) = a

-- what an answer of the slave at `ip` does to the master
pub record Tells {K : Type 0} (ip : ℕ) (sd : Description) (m m' : Master K) : Type 0 where
  pub network : IsNetwork m'.slaves
  pub tells :
      (k : ℕ) → told k m'.slaves ≡ (if eqz (pos ip) (pos k) then some sd else told k m.slaves)
  pub temperature :
      m'.sum_temperature
      ≡ (m.sum_temperature -ℤ (counted ip m.slaves).temperature) +ℤ sd.temperature
  pub illumination :
      m'.sum_illumination
      ≡ ((m.sum_illumination + 2 ^ 32 - (counted ip m.slaves).illumination) % 2 ^ 32
          + sd.illumination)
        % 2 ^ 32

module _ {K : Type 0} where
  master_update_slave-Tells :
      (fresh : ℕ) (garbage : Description) (m : Master K) (ip : ℕ) (sd : Description)
      → IsNetwork m.slaves
      → fresh ≢ null
      → Others (λ e. e.id) fresh (in_order m.slaves.root)
      → m.slaves.count + 1 < 2 ^ 64
      → (m' : Master K) × (master_update_slave fresh garbage m ip sd ≡ some m') × Tells ip sd m m'
  unfolding master_update_slave
  master_update_slave-Tells fresh garbage m ip sd network allocated new room =
      let r = reached fresh garbage m.slaves ip sd network allocated new room in
      (
        record m {
          sum_temperature =
              (m.sum_temperature -ℤ (counted ip m.slaves).temperature) +ℤ sd.temperature;
          sum_illumination =
              ((m.sum_illumination + 2 ^ 32 - (counted ip m.slaves).illumination) % 2 ^ 32
                + sd.illumination)
              % 2 ^ 32;
          slaves = record (r.tree) { root = update_data r.id (λ old. sd) r.tree.root };
        },
        rw (r.returns) refl,
        record { network = r.network; tells = r.tells; temperature = refl; illumination = refl },
      )

  pub master_act-Tells :
      (text : ℤ → List ℕ) (fresh : ℕ) (garbage : Description) (now : ℕ) (m : Master K)
      (packet : List ℕ) (remote : ℕ)
      → byte 0 packet ≡ pr_response
      → 3 < length packet
      → IsNetwork m.slaves
      → fresh ≢ null
      → Others (λ e. e.id) fresh (in_order m.slaves.root)
      → m.slaves.count + 1 < 2 ^ 64
      → (m' : Master K) × (master_act text fresh garbage now m packet remote
          ≡ some ((master_calculate_averages m').0, informs text now m'))
        × Tells remote
            (record { temperature = to_int8 (byte 2 packet); illumination = byte 3 packet })
            m
            (master_calculate_averages m').0
  unfolding master_calculate_averages
  master_act-Tells text fresh garbage now m packet remote response there network allocated new
        room =
      let (m', e, t) =
        master_update_slave-Tells fresh garbage m remote
          (record { temperature = to_int8 (byte 2 packet); illumination = byte 3 packet }) network
          allocated new room in
      (
        m',
        master_act-response text fresh garbage now m m' packet remote response there e,
        record {
          network = t.network;
          tells = t.tells;
          temperature = t.temperature;
          illumination = t.illumination;
        },
      )
