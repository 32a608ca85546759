-- ===== src/Netdev/Poll.antt =====
-- The NAPI poll, `onic_rx_poll` of onic_main.c, and when it asks to be called again.
use onic_driver.Base.{
  ℕ, ◌+◌, ◌≡◌, refl, ap, Bool, true, false, eq→==, ◌==◌, ◌||◌, ◌&&◌, not, leb, if◌then◌else◌, add64,
  sum_of, arith,
}
use onic_driver.Base.Int.{ℤ, pos, lt_zero}
use onic_driver.Kernel.{pure, fetch, perform, Op, Event, Log, Env, World, called}
use onic_driver.Netdev.{rx_poll_end, onic_rx_poll}

-- How often the poll of a queue was ended, and asked for again.
abbrev pub ends_op : ℕ → Op → ℕ
ends_op q (Op.napi_complete p) = if p == q then 1 else 0
ends_op q o = 0

abbrev pub asks_op : ℕ → Op → ℕ
asks_op q (Op.napi_reschedule p) = if p == q then 1 else 0
asks_op q o = 0

abbrev pub ends : ℕ → Log → ℕ
ends q l = sum_of (λ (e : Event). ends_op q e.op) l

abbrev pub asks : ℕ → Log → ℕ
asks q l = sum_of (λ (e : Event). asks_op q e.op) l

-- The packets that the device reports when the service of the queue is over.
abbrev pub pending : Env → ℕ → World → ℕ
pending env h w =
    if w.priv.qdma_dev_conf.intr_moderation
    then env.value w.log (Op.qdma_queue_c2h_peek w.priv.dev_handle h)
    else 0

module _ (env : Env) (q : ℕ) where
  self : (q == q) ≡ true
  self = eq→== q q refl

  -- The two conditional calls of the end of the poll.
  peek-counts :
      (b : Bool) (d h : ℕ) (w : World)
      → let r = (if b then fetch (Op.qdma_queue_c2h_peek d h) else pure 0) env w in
        (r.0 ≡ (if b then env.value w.log (Op.qdma_queue_c2h_peek d h) else 0))
        × (ends q r.1.log ≡ ends q w.log)
        × (asks q r.1.log ≡ asks q w.log)
  peek-counts true d h w = (refl, omega arith, omega arith)
  peek-counts false d h w = (refl, refl, refl)

  reschedule-counts :
      (b : Bool) (w : World)
      → let v = ((if b then perform (Op.napi_reschedule q) else pure tt) env w).1 in
        (ends q v.log ≡ ends q w.log) × (asks q v.log ≡ asks q w.log + (if b then 1 else 0))
  reschedule-counts true w = rw self (omega arith, omega arith)
  reschedule-counts false w = (refl, omega arith)

  rx_poll_end-asks :
      (h quota : ℕ) (w : World)
      → let r = rx_poll_end q h quota env w in
        (r.0 ≡ pos 0)
        × (ends q r.1.log ≡ ends q w.log)
        × (asks q r.1.log
            ≡ asks q w.log
              + (if w.priv.info.is_poll_mode || leb quota (pending env h w) then 1 else 0))
  unfolding rx_poll_end
  rx_poll_end-asks h quota w =
      let d = w.priv.dev_handle in
      let b = w.priv.qdma_dev_conf.intr_moderation in
      let r = (if b then fetch (Op.qdma_queue_c2h_peek d h) else pure 0) env w in
      let v = called (Op.qdma_queue_update_pointers d h) env r.1 in
      let (e, f, g) = peek-counts b d h w in
      let (k, l) = reschedule-counts (w.priv.info.is_poll_mode || leb quota r.0) v in
      (
        refl,
        omega (arith, k, f),
        omega (
          arith,
          l,
          g,
          ap {B = ℕ} (λ n. if w.priv.info.is_poll_mode || leb quota n then 1 else 0) e,
        ),
      )

  -- The end of the poll after the service of the queue, by whether the service failed.
  served-asks :
      (failed : Bool) (ret : ℤ) (h quota n m : ℕ) (w : World)
      → ends q w.log ≡ n + 1
      → asks q w.log ≡ m
      → let r = (if failed then pure ret else rx_poll_end q h quota) env w in
        (ends q r.1.log ≡ n + 1)
        × (if failed
            then (r.0 ≡ ret) × (asks q r.1.log ≡ m)
            else (r.0 ≡ pos 0)
              × (asks q r.1.log
                  ≡ m + (if w.priv.info.is_poll_mode || leb quota (pending env h w) then 1 else 0)))
  served-asks true ret h quota n m w a b = (a, (refl, b))
  served-asks false ret h quota n m w a b =
      let (e, f, g) = rx_poll_end-asks h quota w in (omega (arith, f, a), (e, omega (arith, g, b)))

-- On a NAPI structure and a network device that are not NULL and a private part, `onic_rx_poll` of the
-- queue `q` ends the poll exactly once. In interrupt mode a failed service of the queue is returned, and
-- the poll is not asked for again; otherwise it returns 0 and asks for the poll again, once, exactly in
-- poll mode or when at least as many packets are pending as the quota allows.
pub onic_rx_poll-asks :
    (env : Env) (napi netdev q quota : ℕ) (w : World)
    → (napi == 0) ≡ false
    → (netdev == 0) ≡ false
    → (env.priv_of netdev == 0) ≡ false
    → let h = add64 w.priv.base_rx_q_handle q in
      let serve = Op.qdma_queue_service w.priv.dev_handle h quota in
      let served = called (Op.napi_complete q) env (called serve env w) in
      let poll_mode = w.priv.info.is_poll_mode in
      let r = onic_rx_poll napi netdev q quota env w in
      (ends q r.1.log ≡ ends q w.log + 1)
      × (if not poll_mode && lt_zero (env.status w.log serve)
          then (r.0 ≡ env.status w.log serve) × (asks q r.1.log ≡ asks q w.log)
          else (r.0 ≡ pos 0)
            × (asks q r.1.log
                ≡ asks q w.log + (if poll_mode || leb quota (pending env h served) then 1 else 0)))
unfolding onic_rx_poll
onic_rx_poll-asks env napi netdev q quota w a b c =
    let h = add64 w.priv.base_rx_q_handle q in
    let serve = Op.qdma_queue_service w.priv.dev_handle h quota in
    let v = called (Op.napi_complete q) env (called serve env w) in
    rw (a, b, c)
      (served-asks env q (not w.priv.info.is_poll_mode && lt_zero (env.status w.log serve))
        (env.status w.log serve) h quota (ends q w.log) (asks q w.log) v
        (rw (self env q) (omega arith)) (omega arith))
