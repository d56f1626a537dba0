-- ===== src/Apps/PingPong/Laws.antt =====
-- What can and cannot happen between the two programs.
use homa_nic.Prelude.{
  suc, ◌+◌, ◌-◌, ◌≤◌, ◌<◌, ◌≡◌, ◌∙◌, ◌⊎◌, inl, inr, refl, Bool, true, false, ◌&&◌, not,
}
use homa_nic.Prelude.{arith, leb, ◌==◌, if◌then◌else◌}
use homa_nic.Apps.PingPong.{ready, waiting, answered, polling, sending, clearing}
use homa_nic.Apps.PingPong.{
  State, start, rounds, Step, store_ping, deliver_ping, see_ping, store_pong, clear_ping,
  deliver_pong, see_pong, clear_pong, Reach, nothing, step,
}

-- The server has no ping: it polls, or it is still about to clear the one that it answered.
abbrev pub server_idle : State → Bool
server_idle s = elim s.server [
  | polling ↦ not s.server_poll
  | sending ↦ false
  | clearing ↦ s.server_poll
]

-- The server has a ping, or has lost one.
abbrev pub server_busy : State → Bool
server_busy s = elim s.server [
  | polling ↦ true
  | sending ↦ s.server_poll
  | clearing ↦ s.server_poll
]

-- At most one message is under way, and no ping is sent beyond the last round.
abbrev pub consistent : State → Bool
consistent s = leb s.pings_sent rounds && elim s.client [
  | ready ↦
      not s.client_poll
      && (s.pings == 0)
      && (s.pongs == 0)
      && server_idle s
      && (s.pings_sent == s.pongs_sent)
  | answered ↦
      s.client_poll
      && (s.pings == 0)
      && (s.pongs == 0)
      && server_idle s
      && (s.pings_sent == s.pongs_sent)
  | waiting ↦
      if s.client_poll
      then (s.pings == 0) && (s.pongs == 0) && server_idle s && (s.pings_sent == s.pongs_sent)
      else if s.pongs == 1
      then (s.pings == 0) && server_idle s && (s.pings_sent == s.pongs_sent)
      else (s.pongs == 0)
        && (s.pings_sent == suc s.pongs_sent)
        && (if s.pings == 1 then server_idle s else (s.pings == 0) && server_busy s)
]

Step-consistent : (s t : State) → Step s t → consistent s ≡ true → consistent t ≡ true
Step-consistent s t (store_ping h m e) v = rw e (ground arith)
Step-consistent s t (deliver_ping h e) v = rw e (ground arith)
Step-consistent s t (see_ping h k e) v = rw e (ground arith)
Step-consistent s t (store_pong h e) v = rw e (ground arith)
Step-consistent s t (clear_ping h e) v = rw e (ground arith)
Step-consistent s t (deliver_pong h e) v = rw e (ground arith)
Step-consistent s t (see_pong h k e) v = rw e (ground arith)
Step-consistent s t (clear_pong h e) v = rw e (ground arith)

Reach-consistent : (s t : State) → consistent s ≡ true → Reach s t → consistent t ≡ true
Reach-consistent s t v nothing = v
Reach-consistent s t v (step {t = u} r st) = Step-consistent u t st (Reach-consistent s u v r)

-- Whatever the order of the steps, at most one message is under way, and the server has answered
-- every ping that was sent, or every one but the last.
pub one_message :
    (s : State)
    → Reach start s
    → (s.pings + s.pongs ≤ 1) × ((s.pings_sent ≡ s.pongs_sent) ⊎ (s.pings_sent ≡ suc s.pongs_sent))
one_message s r = let v = Reach-consistent start s refl r in (counts s v, sent s v)
  where
    counts : (s : State) → consistent s ≡ true → s.pings + s.pongs ≤ 1
    counts s v = ground arith

    sent :
        (s : State)
        → consistent s ≡ true
        → (s.pings_sent ≡ s.pongs_sent) ⊎ (s.pings_sent ≡ suc s.pongs_sent)
    sent s v = ground arith

-- A ping has been lost: both programs poll, and no message is under way.
abbrev pub Lost : State → Type 0
Lost s =
    (s.client ≡ waiting)
    × (s.server ≡ polling)
    × (s.client_poll ≡ false)
    × (s.server_poll ≡ false)
    × (s.pings ≡ 0)
    × (s.pongs ≡ 0)

Lost-stuck : (s t : State) → Lost s → Step s t → ⊥
Lost-stuck s t l (store_ping h m e) = cc
Lost-stuck s t l (deliver_ping h e) = omega (arith, l.4)
Lost-stuck s t l (see_ping h k e) = cc
Lost-stuck s t l (store_pong h e) = cc
Lost-stuck s t l (clear_ping h e) = cc
Lost-stuck s t l (deliver_pong h e) = omega (arith, l.5)
Lost-stuck s t l (see_pong h k e) = cc
Lost-stuck s t l (clear_pong h e) = cc

-- The client has left its loop, every ping has been answered, and no message is under way.
abbrev pub Finished : State → Type 0
Finished s =
    (s.client ≡ ready)
    × (s.pings_sent ≡ rounds)
    × (s.pongs_sent ≡ rounds)
    × (s.pings ≡ 0)
    × (s.pongs ≡ 0)

-- The cases in which a step is possible.
moves :
    (s : State)
    → consistent s ≡ true
    → Lost s
      ⊎ Finished s
      ⊎ (((s.client ≡ ready) × (s.pings_sent < rounds))
          ⊎ (s.client ≡ answered)
          ⊎ ((s.client ≡ waiting) × (s.client_poll ≡ true))
          ⊎ (s.server ≡ sending)
          ⊎ (s.server ≡ clearing)
          ⊎ (0 < s.pings)
          ⊎ (0 < s.pongs)
          ⊎ ((s.server ≡ polling) × (s.server_poll ≡ true)))
moves s v = ground arith

abbrev Moves : State → Type 0
Moves s = (t : State) × Step s t

Moves-cases :
    (s : State)
    → ((s.client ≡ ready) × (s.pings_sent < rounds))
      ⊎ (s.client ≡ answered)
      ⊎ ((s.client ≡ waiting) × (s.client_poll ≡ true))
      ⊎ (s.server ≡ sending)
      ⊎ (s.server ≡ clearing)
      ⊎ (0 < s.pings)
      ⊎ (0 < s.pongs)
      ⊎ ((s.server ≡ polling) × (s.server_poll ≡ true))
    → Moves s
Moves-cases s (inl h) = (_, store_ping h.0 h.1 refl)
Moves-cases s (inr (inl h)) = (_, clear_pong h refl)
Moves-cases s (inr (inr (inl h))) = (_, see_pong h.0 h.1 refl)
Moves-cases s (inr (inr (inr (inl h)))) = (_, store_pong h refl)
Moves-cases s (inr (inr (inr (inr (inl h))))) = (_, clear_ping h refl)
Moves-cases s (inr (inr (inr (inr (inr (inl h)))))) = (_, deliver_ping h refl)
Moves-cases s (inr (inr (inr (inr (inr (inr (inl h))))))) = (_, deliver_pong h refl)
Moves-cases s (inr (inr (inr (inr (inr (inr (inr h))))))) = (_, see_ping h.0 h.1 refl)

-- In each state that can be reached a step is possible, or the client has finished, or a ping has
-- been lost. When it has finished, it has sent 1000 pings and every one has been answered. When a
-- ping has been lost, both programs poll, no message is under way, and no step is possible.
pub progress :
    (s : State)
    → Reach start s
    → ((t : State) × Step s t) ⊎ Finished s ⊎ (Lost s × ((t : State) → ¬ (Step s t)))
progress s r = elim (moves s (Reach-consistent start s refl r)) [
  | inl l ↦ inr (inr (l, λ t. Lost-stuck s t l))
  | inr (inl f) ↦ inr (inl f)
  | inr (inr m) ↦ inl (Moves-cases s m)
]

-- The ping that was delivered before the server has cleared the one that it answered, or that the
-- server has then cleared with it.
abbrev Doomed : State → Type 0
Doomed s =
    (s.client ≡ waiting)
    × (s.client_poll ≡ false)
    × (s.pings ≡ 0)
    × (s.pongs ≡ 0)
    × ((s.server ≡ clearing) ⊎ ((s.server ≡ polling) × (s.server_poll ≡ false)))

abbrev SameSent : State → State → Type 0
SameSent s t = (t.pings_sent ≡ s.pings_sent) × (t.pongs_sent ≡ s.pongs_sent)

Step-Doomed : (s t : State) → Step s t → Doomed s → Doomed t × SameSent s t
Step-Doomed s t (store_ping h m e) d = absurd (cc)
Step-Doomed s t (deliver_ping h e) d = absurd (omega (arith, d.2))
Step-Doomed s t (see_ping h k e) d = absurd (ground (arith, d.4))
Step-Doomed s t (store_pong h e) d = absurd (ground (arith, d.4))
Step-Doomed s t (clear_ping h e) d = rw e ((d.0, d.1, d.2, d.3, inr (refl, refl)), (refl, refl))
Step-Doomed s t (deliver_pong h e) d = absurd (omega (arith, d.3))
Step-Doomed s t (see_pong h k e) d = absurd (cc)
Step-Doomed s t (clear_pong h e) d = absurd (cc)

Reach-Doomed : (s t : State) → Doomed s → Reach s t → Doomed t × SameSent s t
Reach-Doomed s t d nothing = (d, (refl, refl))
Reach-Doomed s t d (step {t = u} r st) =
    let (du, (a, b)) = Reach-Doomed s u d r in
    let (dt, (a', b')) = Step-Doomed u t st du in (dt, (a' ∙ a, b' ∙ b))

under_way :
    (s : State)
    → consistent s ≡ true
    → 0 < s.pings
    → (s.client ≡ waiting) × (s.client_poll ≡ false) × (s.pings ≡ 1) × (s.pongs ≡ 0)
under_way s v h = ground arith

-- When a ping is delivered while the server has answered the one before and not yet set `*poll` to
-- 0, no message is sent any more, by either program.
pub early_ping_lost :
    (s t : State)
    → Reach start s
    → s.server ≡ clearing
    → 0 < s.pings
    → Reach (record s { pings = s.pings - 1; server_poll = true }) t
    → (t.pings_sent ≡ s.pings_sent) × (t.pongs_sent ≡ s.pongs_sent)
early_ping_lost s t r c h after =
    let (w, p, n, m) = under_way s (Reach-consistent start s refl r) h in
    let s' : State = record s { pings = s.pings - 1; server_poll = true } in
    (Reach-Doomed s' t (w, p, omega arith, m, inl c) after).1
