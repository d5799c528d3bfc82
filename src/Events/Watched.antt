-- ===== src/Events/Watched.antt =====
-- The events of one wait meet the entries of their sockets.
use mathlib.Core.Option
use basicmatch.Base.{
  ℕ, false, List, [], ◌∷◌, Option, some, All, ◌==◌, ◌≡◌, ◌⊎◌, inl, inr, arith, refl, Bool-cases,
  ◌∙◌, if◌then◌else◌,
}
use basicmatch.Events.{EventData, Kevent, Kqueue, watch_of, unwatch, handle_event, handle_events}

-- The callbacks come back, and take no entry out of the loop.
pub record IsServing {S : Type 0} (call : EventData → ℕ → Kqueue S → Option (Kqueue S))
    : Type 0 where
  pub after : EventData → ℕ → Kqueue S → Kqueue S
  pub comes_back : (d : EventData) (n : ℕ) (kq : Kqueue S) → call d n kq ≡ some (after d n kq)
  pub keeps :
      (d : EventData) (n : ℕ) (kq : Kqueue S) (i : ℕ) (w : EventData)
      → watch_of i kq.sockets ≡ some w
      → watch_of i (after d n kq).sockets ≡ some w

abbrev pub IsWatched : List (ℕ × EventData) → Kevent → Type 0
IsWatched ws e = (d : EventData) × (watch_of e.ident ws ≡ some d)

-- No two events are of one socket.
abbrev pub IsDistinct : List Kevent → Type 0
IsDistinct [] = Unit
IsDistinct (e ∷ es) = All (λ f. (e.ident == f.ident) ≡ false) es × IsDistinct es

-- The event is not the end of the socket with this descriptor.
abbrev pub Spares : ℕ → Kevent → Type 0
Spares i e = ((e.ident == i) ≡ false) ⊎ (e.eof ≡ false)

watch_of-unwatch :
    (i j : ℕ) (ws : List (ℕ × EventData))
    → (i == j) ≡ false
    → watch_of j (unwatch i ws) ≡ watch_of j ws
unfolding watch_of unwatch
watch_of-unwatch i j [] h = refl
watch_of-unwatch i j ((k, d) ∷ ws) h = ground (arith, h, watch_of-unwatch i j ws h)

module _ {S : Type 0} (call : EventData → ℕ → Kqueue S → Option (Kqueue S))
    (serving : IsServing call) where
  -- What an event leaves of the entries of other sockets.
  handle_event_total :
      (e : Kevent) (kq : Kqueue S)
      → IsWatched kq.sockets e
      → (kq' : Kqueue S) × (handle_event call e kq ≡ some kq')
        × ((i : ℕ) (w : EventData)
            → Spares i e
            → watch_of i kq.sockets ≡ some w
            → watch_of i kq'.sockets ≡ some w)
  unfolding handle_event Option.bind
  handle_event_total e kq (d, k) = elim (Bool-cases e.eof) [
    | inl z ↦
        let t = serving.after d 1234 kq in
        (
          record t { sockets = unwatch e.ident t.sockets },
          rw (k, z, serving.comes_back d 1234 kq) refl,
          λ i w spared q.
              watch_of-unwatch e.ident i t.sockets (ground (arith, z, spared))
              ∙ serving.keeps d 1234 kq i w q,
        )
    | inr z ↦
        let n = if e.failed then e.errno else 0 in
        (
          serving.after d n kq,
          rw (k, z) (serving.comes_back d n kq),
          λ i w spared q. serving.keeps d n kq i w q,
        )
  ]

  -- The other events' entries.
  handle_event-IsWatched :
      (e : Kevent) (ws ws' : List (ℕ × EventData)) (es : List Kevent)
      → ((i : ℕ) (w : EventData) → Spares i e → watch_of i ws ≡ some w → watch_of i ws' ≡ some w)
      → All (λ f. (e.ident == f.ident) ≡ false) es
      → All (IsWatched ws) es
      → All (IsWatched ws') es
  handle_event-IsWatched e ws ws' [] keeps others watched = tt
  handle_event-IsWatched e ws ws' (f ∷ es) keeps others watched =
      let (d, k) = watched.0 in
      (
        (d, keeps f.ident d (inl others.0) k),
        handle_event-IsWatched e ws ws' es keeps others.1 watched.1,
      )

  -- The events of one wait, no two of the same socket and each of a socket that is in the loop, with
  -- callbacks that come back and take no socket out of the loop: each event finds its entry, and a
  -- socket whose end is not among the events is in the loop after them as before.
  pub handle_events_total :
      (es : List Kevent) (kq : Kqueue S) (i : ℕ) (w : EventData)
      → IsDistinct es
      → All (IsWatched kq.sockets) es
      → watch_of i kq.sockets ≡ some w
      → All (Spares i) es
      → (kq' : Kqueue S) × (handle_events call es kq ≡ some kq') × (watch_of i kq'.sockets ≡ some w)
  unfolding handle_events Option.bind
  handle_events_total [] kq i w distinct watched k spared = (kq, refl, k)
  handle_events_total (e ∷ es) kq i w distinct watched k spared =
      let (kq1, a, keeps) = handle_event_total e kq watched.0 in
      let (kq2, b, c) =
        handle_events_total es kq1 i w distinct.1
          (handle_event-IsWatched e kq.sockets kq1.sockets es keeps distinct.0 watched.1)
          (keeps i w spared.0 k) spared.1 in
      (kq2, rw a b, c)
