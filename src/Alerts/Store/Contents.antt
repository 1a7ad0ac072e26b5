-- ===== src/Alerts/Store/Contents.antt =====
-- What the store of services/alerts/marga_alerts/store.py holds.
use marga.Prelude.{
  ℕ, zero, suc, ◌+◌, ◌-◌, ◌≤◌, ◌≡◌, refl, ◌∙◌, ap, inl, inr, true, false, none, some, List, [], ◌∷◌,
  ◌++◌, arith, drop, length, length-append, length-drop, nat_eq, nat_eqb_iff, eqb_refl, Bool-cases,
}
use marga.Prelude.Dict
use marga.Alerts.Alert.{Alert}
use marga.Alerts.Store.{Store, is_terminal, append, add, remove, find_last, get, init}

-- The history is bounded, and no active alert is in a terminal state.
pub record IsStore (s : Store) : Type 0 where
  pub bounded : length s.history ≤ s.history_limit
  pub open_only : (k : ℕ) (a : Alert) → Dict.get k s.active ≡ some a → is_terminal a.state ≡ false

pub init-IsStore : (n : ℕ) → IsStore (init n)
unfolding init Dict.get
init-IsStore n = record { bounded = omega arith; open_only = λ k a e. absurd (ground arith) }

length-append_le {ℓ} : {A : Type ℓ} (n : ℕ) (x : A) (xs : List A) → length (append n x xs) ≤ n
unfolding append
length-append_le n x xs =
    ground (arith, length-drop (length xs + 1 - n) (xs ++ x ∷ []), length-append xs (x ∷ []))

-- `add` keeps the history within its limit and the terminal alerts out of the active ones.
pub add-IsStore : (a : Alert) {s : Store} → IsStore s → IsStore (add a s)
unfolding add
add-IsStore a {s} i = elim (Bool-cases (is_terminal a.state)) [
  | inl closed ↦
      rw (closed, add)
        (record {
          bounded = length-append_le s.history_limit a s.history;
          open_only = λ k b e. ground (arith, Dict.get-pop a.alert_id k s.active, i.open_only k b);
        })
  | inr live ↦
      rw (live, add)
        (record {
          bounded = i.bounded;
          open_only =
              λ k b e. ground (arith, Dict.get-put a.alert_id k a s.active, i.open_only k b);
        })
]

pub remove-IsStore : (k : ℕ) {s : Store} → IsStore s → IsStore (remove k s).1
unfolding remove
remove-IsStore k {s} i = record {
  bounded = i.bounded;
  open_only = λ j b e. ground (arith, Dict.get-pop k j s.active, i.open_only j b);
}

find_last-append :
    (k : ℕ) (a : Alert) (xs : List Alert) → a.alert_id ≡ k → find_last k (xs ++ a ∷ []) ≡ some a
unfolding find_last
find_last-append k a [] e = ground (arith, nat_eqb_iff a.alert_id k)
find_last-append k a (x ∷ xs) e = rw (find_last-append k a xs e) refl

drop-append {ℓ} :
    {A : Type ℓ} (n : ℕ) (xs : List A) (x : A)
    → n ≤ length xs
    → drop n (xs ++ x ∷ []) ≡ drop n xs ++ x ∷ []
drop-append zero xs x le = refl
drop-append (suc n) [] x le = absurd (omega arith)
drop-append (suc n) (y ∷ xs) x le = drop-append n xs x (omega arith)

add-closed :
    (a : Alert) (s : Store)
    → is_terminal a.state ≡ true
    → add a s ≡ record s {
      active = Dict.pop a.alert_id s.active;
      history = append s.history_limit a s.history;
    }
unfolding add
add-closed a s e = rw e refl

get-gone : (k : ℕ) (s : Store) → Dict.get k s.active ≡ none → get k s ≡ find_last k s.history
unfolding get
get-gone k s e = rw (e, get) refl

find_last-append_le :
    (a : Alert) (n : ℕ) (xs : List Alert) → 1 ≤ n → find_last a.alert_id (append n a xs) ≡ some a
unfolding append
find_last-append_le a n xs room =
    ap (find_last a.alert_id) (drop-append (length xs + 1 - n) xs a (omega arith))
    ∙ find_last-append a.alert_id a _ refl

-- An alert that was just added is found under its identifier, whichever its state, as long as the
-- history has room for one alert.
pub get-add : (a : Alert) (s : Store) → 1 ≤ s.history_limit → get a.alert_id (add a s) ≡ some a
unfolding get add
get-add a s room = elim (Bool-cases (is_terminal a.state)) [
  | inr live ↦ rw live (ground (arith, Dict.get-put_self a.alert_id a s.active))
  | inl closed ↦
      let gone : Dict.get a.alert_id (Dict.pop a.alert_id s.active) ≡ none =
        ground (arith, Dict.get-pop a.alert_id a.alert_id s.active, eqb_refl a.alert_id) in
      ap (get a.alert_id) (add-closed a s closed)
      ∙ get-gone a.alert_id
          (record s {
            active = Dict.pop a.alert_id s.active;
            history = append s.history_limit a s.history;
          })
          gone
      ∙ find_last-append_le a s.history_limit s.history room
]
