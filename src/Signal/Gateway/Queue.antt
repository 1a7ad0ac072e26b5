-- ===== src/Signal/Gateway/Queue.antt =====
-- The queue of commands of services/gateway/signal_control.py.
use marga.Prelude.{
  ℕ, ◌+◌, ◌-◌, ◌≤◌, ◌<◌, ◌≡◌, refl, sym, ap, ◌∙◌, inl, inr, List, [], ◌∷◌, ◌++◌, arith, Bool-cases,
  ltb, length, length-append, length-drop, drop, drop-drop, drop-append, keep,
}
use mathlib.Core.Path.{subst}
use mathlib.Core.List.{append_assoc, append-nil}
use marga.Signal.Gateway.{
  Gateway, Issued, last, queue_command, drain_pending_commands, is_change, max_pending_commands,
  history_length,
}

module _ {ℓ} {A : Type ℓ} where
  length-last : (n : ℕ) (xs : List A) → length (last n xs) ≤ n
  unfolding last
  length-last n xs = omega (arith, length-drop (length xs - n) xs)

  last_all : (n : ℕ) (xs : List A) → length xs ≤ n → last n xs ≡ xs
  unfolding last
  last_all n xs h = let none : length xs - n ≡ 0 = omega arith in rw none refl

  -- What the shortening drops is not among the last ones.
  last-append-last : (n : ℕ) (xs ys : List A) → last n (last n xs ++ ys) ≡ last n (xs ++ ys)
  unfolding last
  last-append-last n xs ys =
      let k = length xs - n in
      let size : length (drop k xs ++ ys) ≡ length xs - k + length ys =
        length-append (drop k xs) ys ∙ ap (λ m. m + length ys) (length-drop k xs) in
      let steps : k + (length (drop k xs ++ ys) - n) ≡ length (xs ++ ys) - n =
        omega (arith, size, length-append xs ys) in
      ap (drop (length (drop k xs ++ ys) - n)) (sym (drop-append k xs ys (omega arith)))
      ∙ drop-drop (length (drop k xs ++ ys) - n) k (xs ++ ys)
      ∙ ap (λ m. drop m (xs ++ ys)) steps

-- What a call of the queue leaves waiting.
pub queue_command-pending :
    (k : Issued) (g : Gateway)
    → (queue_command k g).pending ≡ last max_pending_commands (g.pending ++ k ∷ [])
unfolding queue_command
queue_command-pending k g =
    elim (Bool-cases (ltb max_pending_commands (length (g.pending ++ k ∷ [])))) [
      | inl over ↦ rw over refl
      | inr fits ↦
          rw fits (sym (last_all max_pending_commands (g.pending ++ k ∷ []) (ground (arith, fits))))
    ]

pub queue_command-controller :
    (k : Issued) (g : Gateway) → (queue_command k g).controller ≡ g.controller
unfolding queue_command
queue_command-controller k g = refl

-- The commands queued one after the other.
unfoldable pub queue_all : List Issued → Gateway → Gateway
queue_all [] g = g
queue_all (k ∷ ks) g = queue_all ks (queue_command k g)

queue_all-pending :
    (ks : List Issued) (g : Gateway) (before : List Issued)
    → g.pending ≡ last max_pending_commands before
    → (queue_all ks g).pending ≡ last max_pending_commands (before ++ ks)
unfolding queue_all
queue_all-pending [] g before h = h ∙ ap (last max_pending_commands) (sym (append-nil before))
queue_all-pending (k ∷ ks) g before h =
    queue_all-pending ks (queue_command k g) (before ++ k ∷ []) (
      queue_command-pending k g
      ∙ ap (λ p. last max_pending_commands (p ++ k ∷ [])) h
      ∙ last-append-last max_pending_commands before (k ∷ []))
    ∙ ap (last max_pending_commands) (append_assoc before (k ∷ []) ks)

queue_command-history :
    (k : Issued) (g : Gateway)
    → length g.history ≤ history_length
    → (queue_command k g).history ≡ last history_length (g.history ++ keep is_change (k ∷ []))
unfolding queue_command keep
queue_command-history k g h = elim (Bool-cases (is_change k)) [
  | inl changes ↦ rw changes refl
  | inr stays ↦
      rw stays (
        sym (ap (last history_length) (append-nil g.history) ∙ last_all history_length g.history h))
]

keep-cons :
    (k : Issued) (ks : List Issued)
    → keep is_change (k ∷ []) ++ keep is_change ks ≡ keep is_change (k ∷ ks)
unfolding keep
keep-cons k ks = ground arith

queue_all-history :
    (ks : List Issued) (g : Gateway) (before : List Issued)
    → g.history ≡ last history_length before
    → (queue_all ks g).history ≡ last history_length (before ++ keep is_change ks)
unfolding queue_all keep
queue_all-history [] g before h = h ∙ ap (last history_length) (sym (append-nil before))
queue_all-history (k ∷ ks) g before h =
    let one = keep is_change (k ∷ []) in
    let short : length g.history ≤ history_length =
      subst (λ l. length l ≤ history_length) (sym h) (length-last history_length before) in
    queue_all-history ks (queue_command k g) (before ++ one) (
      queue_command-history k g short
      ∙ ap (λ p. last history_length (p ++ one)) h
      ∙ last-append-last history_length before one)
    ∙ ap (last history_length)
        (append_assoc before one (keep is_change ks) ∙ ap (λ l. before ++ l) (keep-cons k ks))

-- Within the limits of the queue and of the history.
pub record IsBounded (g : Gateway) : Type 0 where
  pub waiting : length g.pending ≤ max_pending_commands
  pub shown : length g.history ≤ history_length

-- After any commands the queue holds the last 256 of those that waited and those that came, in their
-- order, and the history the last ten of those that change the signal.
pub queue_all-newest :
    (ks : List Issued) (g : Gateway)
    → IsBounded g
    → ((queue_all ks g).pending ≡ last max_pending_commands (g.pending ++ ks))
      × ((queue_all ks g).history ≡ last history_length (g.history ++ keep is_change ks))
queue_all-newest ks g b = (
  queue_all-pending ks g g.pending (sym (last_all max_pending_commands g.pending b.waiting)),
  queue_all-history ks g g.history (sym (last_all history_length g.history b.shown)),
)

-- What happens to the queue: a command comes, or the simulator polls.
pub data Event : Type 0 where
  issues : Issued → Event
  polls : Event

unfoldable pub issued : List Event → List Issued
issued [] = []
issued (issues k ∷ es) = k ∷ issued es
issued (polls ∷ es) = issued es

-- What the polls return, one after the other, and the state after.
unfoldable pub serve : List Event → Gateway → Gateway × List Issued
unfolding queue_command
serve [] g = (g, [])
serve (issues k ∷ es) g = serve es (queue_command k g)
serve (polls ∷ es) g =
    let (g', commands) = drain_pending_commands g in
    let (g'', later) = serve es g' in (g'', commands ++ later)

-- With `n` commands waiting, never more than 256 wait.
abbrev pub Fits : ℕ → List Event → Type 0
Fits n [] = Unit {0}
Fits n (issues k ∷ es) = (n < max_pending_commands) × Fits (n + 1) es
Fits n (polls ∷ es) = Fits 0 es

queued :
    (k : Issued) (g : Gateway)
    → length g.pending < max_pending_commands
    → (queue_command k g).pending ≡ g.pending ++ k ∷ []
queued k g room =
    queue_command-pending k g
    ∙ last_all max_pending_commands (g.pending ++ k ∷ [])
        (omega (arith, length-append g.pending (k ∷ [])))

-- While never more than 256 commands wait, the polls return every command once and in order, but for
-- those that still wait at the end.
pub serve-delivers :
    (es : List Event) (g : Gateway)
    → Fits (length g.pending) es
    → (serve es g).1 ++ (serve es g).0.pending ≡ g.pending ++ issued es
unfolding serve issued
serve-delivers [] g f = sym (append-nil g.pending)
serve-delivers (issues k ∷ es) g (room, f) =
    let now = queued k g room in
    let size : length (queue_command k g).pending ≡ length g.pending + 1 =
      ap length now ∙ length-append g.pending (k ∷ []) in
    serve-delivers es (queue_command k g) (subst (λ n. Fits n es) (sym size) f)
    ∙ ap (λ p. p ++ issued es) now
    ∙ append_assoc g.pending (k ∷ []) (issued es)
serve-delivers (polls ∷ es) g f =
    let g' : Gateway = (drain_pending_commands g).0 in
    append_assoc g.pending (serve es g').1 (serve es g').0.pending
    ∙ ap (λ l. g.pending ++ l) (serve-delivers es g' f)
