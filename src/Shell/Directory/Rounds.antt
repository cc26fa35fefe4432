-- ===== src/Shell/Directory/Rounds.antt =====
-- The rounds of the loop over the events of the base directory.
use interview.Base.{
  ℕ, zero, suc, ◌+◌, ◌*◌, ◌^◌, ◌/◌, ◌%◌, not, take, ◌≤◌, ◌≡◌, refl, ap, inl, inr, Bool, Option,
  some, List, [], ◌∷◌, length, drop, ◌==◌, arith, Option-cases, bind-eq_some, some_inj,
  if◌then◌else◌, ◌>>=◌,
}
use interview.DriverCore.{element}
use interview.Base.Text.{c_string}
use interview.Shell.Directory.{
  Clients, Allocation, base_dir_smth_created, base_dir_smth_deleted, base_dir_single_event,
  base_dir_events,
}

length-drop_le : {A : Type 0} (n : ℕ) (xs : List A) → length (drop n xs) ≤ length xs
length-drop_le zero xs = omega arith
length-drop_le (suc n) [] = omega arith
length-drop_le (suc n) (x ∷ xs) = omega (arith, length-drop_le n xs)

shorter : {A : Type 0} (n k : ℕ) (xs : List A) → 16 ≤ n → length xs ≤ suc k → length (drop n xs) ≤ k
shorter zero k xs some_bytes fits = absurd (omega (arith, some_bytes))
shorter (suc n) k [] some_bytes fits = omega arith
shorter (suc n) k (x ∷ xs) some_bytes fits = omega (arith, fits, length-drop_le n xs)

module _ (is_socket : List ℕ → Bool) (allocate : Clients → Allocation) where
  single_event_size :
      (event : List ℕ) (clients : Clients) (result : ℕ × Bool × Clients)
      → base_dir_single_event is_socket allocate event clients ≡ some result
      → 16 ≤ result.0
  unfolding base_dir_single_event
  single_event_size event clients result h =
      let (mask, _, h1) = bind-eq_some (element event 5) _ h in
      let (l0, _, h2) = bind-eq_some (element event 12) _ h1 in
      let (l1, _, h3) = bind-eq_some (element event 13) _ h2 in
      let (l2, _, h4) = bind-eq_some (element event 14) _ h3 in
      let (l3, _, h5) = bind-eq_some (element event 15) _ h4 in
      let len = l0 + l1 * 2 ^ 8 + l2 * 2 ^ 16 + l3 * 2 ^ 24 in
      let name = if len == 0 then [] else c_string (take len (drop 16 event)) in
      let after : Option Clients =
        if mask % 2 == 1
        then base_dir_smth_created is_socket allocate name clients
        else some clients in
      let done : Clients → Option (ℕ × Bool × Clients) = λ next. some (
        16 + len,
        not (mask / 4 % 2 == 1),
        if mask / 2 % 2 == 1 then base_dir_smth_deleted name next else next,
      ) in
      let (next, _, h6) = bind-eq_some after done h5 in
      let size : 16 + len ≡ result.0 = ap (λ r. r.0) (some_inj h6) in omega (arith, size)

  -- The loop over the events of the directory has rounds enough once there is one for each byte: more
  -- rounds change nothing.
  base_dir_events-rounds :
      (rounds more : ℕ) (events : List ℕ) (clients : Clients)
      → length events ≤ rounds
      → rounds ≤ more
      → base_dir_events is_socket allocate rounds events clients
        ≡ base_dir_events is_socket allocate more events clients
  unfolding base_dir_events
  base_dir_events-rounds zero zero events clients fits le = refl
  base_dir_events-rounds zero (suc more) [] clients fits le = refl
  base_dir_events-rounds zero (suc more) (e ∷ events) clients fits le = absurd (omega (arith, fits))
  base_dir_events-rounds (suc rounds) zero events clients fits le = absurd (omega (arith, le))
  base_dir_events-rounds (suc rounds) (suc more) events clients fits le =
      elim (Option-cases (base_dir_single_event is_socket allocate events clients)) [
        | inl e ↦ rw (e, ◌>>=◌) refl
        | inr (result, e) ↦
            let size = single_event_size events clients result e in
            let later =
              base_dir_events-rounds rounds more (drop result.0 events) result.2
                (shorter result.0 rounds events size fits) (omega (arith, le)) in
            rw (e, ◌>>=◌) (rw later refl)
      ]
