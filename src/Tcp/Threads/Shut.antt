-- ===== src/Tcp/Threads/Shut.antt =====
-- The steps of `close` and `do_close` keep what waits to be sent.
use mathlib.Core.Path.{subst}
use snet.Prelude.{
  ◌≡◌, refl, sym, ◌∙◌, [], ◌∷◌, ◌++◌, inl, inr, true, false, Bool-cases, if◌then◌else◌, arith,
}
use snet.Tcp.Types.{conn_closing, conn_closed, NetEvent, Effect, Conn}
use snet.Tcp.Connection.{status_is_open, log_effect, set_out, notify_send}
use snet.Tcp.Lifecycle.{raise, release}
use snet.Tcp.Status.{default_handler}
use snet.Tcp.Sending.{stream, IsSettled, told, told-append, set_out-told}

-- A step that closes leaves the buffer, and what is settled stays so.
pub record Shut (c t : Conn) : Type 0 where
  pub kept : stream t ≡ stream c
  pub buffer : t.send_buffer ≡ c.send_buffer
  pub outcome : IsSettled c → IsSettled t

pub Shut-refl : (c : Conn) → Shut c c
Shut-refl c = record { kept = refl; buffer = refl; outcome = λ h. h }

pub mark-Shut : (c : Conn) → Shut c (record c { status = conn_closing })
mark-Shut c = record { kept = refl; buffer = refl; outcome = λ h. inr (inr refl) }

pub leave-Shut : (c : Conn) → Shut c (record c { status = conn_closed })
leave-Shut c = record { kept = refl; buffer = refl; outcome = λ h. inr (inr refl) }

pub notify-Shut : (c : Conn) → Shut c (notify_send c)
unfolding notify_send
notify-Shut c = elim (Bool-cases c.has_worker) [
  | inr e ↦ subst (λ b. Shut c (if b then set_out true c else c)) (sym e) (Shut-refl c)
  | inl e ↦
      subst (λ b. Shut c (if b then set_out true c else c)) (sym e)
        (unfold set_out in
          record { kept = refl; buffer = refl; outcome = λ h. inr (inl (set_out-told true c)) })
]

-- A call that is logged and asks nothing of epoll.
log-Shut :
    (e : Effect) (c : Conn)
    → told false (log_effect e c).log ≡ told false c.log
    → Shut c (log_effect e c)
log-Shut e c same = record {
  kept = refl;
  buffer = refl;
  outcome = λ h. elim h [
    | inl none_wait ↦ inl none_wait
    | inr (inl asked) ↦ inr (inl (same ∙ asked))
    | inr (inr shut) ↦ inr (inr shut)
  ];
}

pub unwatch-Shut :
    (c : Conn) → Shut c (if c.has_worker then log_effect (Effect.del_event c.conn_sd) c else c)
unfolding told
unwatch-Shut c = elim (Bool-cases c.has_worker) [
  | inr e ↦
      subst (λ b. Shut c (if b then log_effect (Effect.del_event c.conn_sd) c else c)) (sym e)
        (Shut-refl c)
  | inl e ↦
      subst (λ b. Shut c (if b then log_effect (Effect.del_event c.conn_sd) c else c)) (sym e)
        (log-Shut (Effect.del_event c.conn_sd) c (told-append false c.log _))
]

pub raise-Shut : (c : Conn) → Shut c (raise default_handler NetEvent.disconnect c)
unfolding raise default_handler told
raise-Shut c = log-Shut (Effect.raised NetEvent.disconnect) c (told-append false c.log _)

release-told : (c : Conn) → told false (release default_handler c).log ≡ told false c.log
unfolding release told
release-told c =
    let shut = Effect.close_fd c.conn_sd ∷ [] in
    let posted = Effect.post_remove c.conn_id ∷ [] in
    ground (
      arith,
      told-append false c.log shut,
      told-append false c.log posted,
      told-append false (c.log ++ shut) posted,
    )

release-open :
    (c : Conn)
    → status_is_open c.status ≡ false
    → status_is_open (release default_handler c).status ≡ false
unfolding release
release-open c h = ground (arith, h)

pub release-Shut : (c : Conn) → Shut c (release default_handler c)
unfolding release
release-Shut c = record {
  kept = ground arith;
  buffer = ground arith;
  outcome = λ h. elim h [
    | inl none_wait ↦ inl (ground (arith, none_wait))
    | inr (inl asked) ↦ inr (inl (release-told c ∙ asked))
    | inr (inr shut) ↦ inr (inr (release-open c shut))
  ];
}
