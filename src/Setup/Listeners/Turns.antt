-- ===== src/Setup/Listeners/Turns.antt =====
-- The loop that creates the listeners, against one run over the list of the configuration, and the
-- sockets that are open after it.
use nuords_proxy.Prelude.{
  suc, ◌≤◌, ◌<◌, ◌≡◌, refl, ap, ◌∙◌, sym, arith, if◌then◌else◌, Option, none, some, is_some, List,
  [], ◌∷◌, ◌++◌, append_assoc, length,
}
use nuords_proxy.Inet.Hosts.{Resolver}
use nuords_proxy.Socket.Listen.{Deed, Answers}
use nuords_proxy.Setup.{Listener}
use nuords_proxy.Setup.Listeners.{
  Listening, unopened, get_elem?, put_or_remove, listen_one, done_first, listen_at, listen_all,
}

abbrev pub push_some : Option Listening → List Listening → List Listening
push_some none ls = ls
push_some (some l) ls = l ∷ ls

-- Each listener with its own answers, once, in order.
abbrev pub listened : Resolver → List Answers → List Listening → List Listening × List Deed
listened r ws [] = ([], [])
listened r [] (l ∷ ls) = ([], [])
listened r (w ∷ ws) (l ∷ ls) =
    let (new, done) = listen_one r w l in
    let (all, more) = listened r ws ls in (push_some new all, done ++ more)

length-unopened : (ls : List Listener) → length (unopened ls) ≡ length ls
unfolding unopened
length-unopened [] = refl
length-unopened (l ∷ ls) = ap suc (length-unopened ls)

length-snoc :
    (front : List Listening) (m : Listening) → length (front ++ m ∷ []) ≡ suc (length front)
length-snoc [] m = refl
length-snoc (l ∷ front) m = ap suc (length-snoc front m)

get_elem?-append :
    (front ls : List Listening) → get_elem? (front ++ ls) (length front) ≡ get_elem? ls 0
unfolding get_elem?
get_elem?-append [] ls = refl
get_elem?-append (m ∷ front) ls = get_elem?-append front ls

put_or_remove-append :
    (front ls : List Listening) (new : Option Listening)
    → put_or_remove (length front) new (front ++ ls) ≡ front ++ put_or_remove 0 new ls
unfolding put_or_remove
put_or_remove-append [] ls new = refl
put_or_remove-append (m ∷ front) ls new = ap (◌∷◌ m) (put_or_remove-append front ls new)

-- The turns that are left, with the listeners that have a socket in front.
abbrev Ends : Resolver → List Answers → List Listening → List Listening → Type 0
Ends r ws ls front =
    listen_at r (length front) ws (front ++ ls) (get_elem? (front ++ ls) (length front))
    ≡ (some (front ++ (listened r ws ls).0), (listened r ws ls).1)

-- One turn that leaves `new` of a listener, and the rest.
listen_at-push_some :
    (r : Resolver) (ws : List Answers) (l : Listening) (ls front : List Listening)
    (new : Option Listening) (done : List Deed)
    → ((front : List Listening) → Ends r ws ls front)
    → let left = put_or_remove (length front) new (front ++ l ∷ ls) in
      let j = if is_some new then suc (length front) else length front in
      done_first done (listen_at r j ws left (get_elem? left j))
      ≡ (some (front ++ push_some new (listened r ws ls).0), done ++ (listened r ws ls).1)
unfolding put_or_remove
listen_at-push_some r ws l ls front none done rest =
    rw (put_or_remove-append front (l ∷ ls) none) (ap (done_first done) (rest front))
listen_at-push_some r ws l ls front (some m) done rest =
    rw (put_or_remove-append front (l ∷ ls) (some m))
      (ap (done_first done) (rest_after front m (rest (front ++ m ∷ []))))
  where
    rest_after :
        (front : List Listening) (m : Listening)
        → Ends r ws ls (front ++ m ∷ [])
        → listen_at r
            (suc (length front))
            ws
            (front ++ m ∷ ls)
            (get_elem? (front ++ m ∷ ls) (suc (length front)))
          ≡ (some (front ++ m ∷ (listened r ws ls).0), (listened r ws ls).1)
    rest_after front m e =
        rw
          (
            sym (length-snoc front m),
            sym (append_assoc front (m ∷ []) ls),
            sym (append_assoc front (m ∷ []) (listened r ws ls).0),
          )
          e

listen_at-listened :
    (r : Resolver) (ws : List Answers) (ls front : List Listening)
    → length ls ≤ length ws
    → Ends r ws ls front
unfolding listen_at get_elem?
listen_at-listened r ws [] front enough = rw (get_elem?-append front []) refl
listen_at-listened r [] (l ∷ ls) front enough = absurd (omega arith)
listen_at-listened r (w ∷ ws) (l ∷ ls) front enough = rw (get_elem?-append front (l ∷ ls)) (
    listen_at-push_some r ws l ls front (listen_one r w l).0 (listen_one r w l).1
      (λ more. listen_at-listened r ws ls more (omega arith)))

-- Given answers for each listener, the loop ends, and what it leaves and does is what one run over
-- the list of the configuration does, each listener with its own answers.
pub listen_all-listened :
    (r : Resolver) (ws : List Answers) (ls : List Listener)
    → length ls ≤ length ws
    → listen_all r ws ls ≡ (some (listened r ws (unopened ls)).0, (listened r ws (unopened ls)).1)
unfolding listen_all
listen_all-listened r ws ls enough =
    listen_at-listened r ws (unopened ls) [] (rw (length-unopened ls) enough)

abbrev passed : List Listening → Option Listening → List Listening
passed front none = front
passed front (some m) = front ++ m ∷ []

-- One turn and the rest, as a loop with a longer front.
listen_at-passed :
    (r : Resolver) (ws : List Answers) (l : Listening) (ls front : List Listening)
    (new : Option Listening)
    → let left = put_or_remove (length front) new (front ++ l ∷ ls) in
      let j = if is_some new then suc (length front) else length front in
      let more = passed front new in
      listen_at r j ws left (get_elem? left j)
      ≡ listen_at r (length more) ws (more ++ ls) (get_elem? (more ++ ls) (length more))
unfolding put_or_remove
listen_at-passed r ws l ls front none = rw (put_or_remove-append front (l ∷ ls) none) refl
listen_at-passed r ws l ls front (some m) =
    rw
      (
        put_or_remove-append front (l ∷ ls) (some m),
        length-snoc front m,
        append_assoc front (m ∷ []) ls,
      )
      refl

listen_at-short :
    (r : Resolver) (ws : List Answers) (ls front : List Listening)
    → length ws < length ls
    → (listen_at r (length front) ws (front ++ ls) (get_elem? (front ++ ls) (length front))).0
      ≡ none
unfolding listen_at get_elem?
listen_at-short r ws [] front few = absurd (omega arith)
listen_at-short r [] (l ∷ ls) front few = rw (get_elem?-append front (l ∷ ls)) refl
listen_at-short r (w ∷ ws) (l ∷ ls) front few =
    let new = (listen_one r w l).0 in
    rw (get_elem?-append front (l ∷ ls)) (
      ap (λ x. x.0) (listen_at-passed r ws l ls front new)
      ∙ listen_at-short r ws ls (passed front new) (omega arith))

-- With fewer answers than listeners the loop does not end.
pub listen_all-short :
    (r : Resolver) (ws : List Answers) (ls : List Listener)
    → length ws < length ls
    → (listen_all r ws ls).0 ≡ none
unfolding listen_all
listen_all-short r ws ls few = listen_at-short r ws (unopened ls) [] (rw (length-unopened ls) few)
