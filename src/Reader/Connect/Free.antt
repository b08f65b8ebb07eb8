-- ===== src/Reader/Connect/Free.antt =====
-- Connecting, disconnecting and cancelling give back the semaphores that they take.
use emulation_lib.Prelude.{
  ℕ, ◌≡◌, refl, ap, arith, true, false, ◌&&◌, ◌||◌, not, Option, none, inl, inr, ltb, if-both,
  if-else, Bool-cases,
}
use emulation_lib.Reader.{ReaderCode, no_error}
use emulation_lib.Reader.Execute.{Device}
use emulation_lib.Reader.Connect.{
  ConnectCalls, CancelCalls, CancelResult, bad_port, good_baudrate, connect_post, connect_taken,
  connect_wait, rs232c_init, connect_device, disconnect_post, disconnect_wait, disconnect_device,
  cancel_end, cancel_sent, cancel_taken, cancel_command,
}

-- No semaphore of the port is taken, and no cancel is under way.
abbrev pub IsFree : Device → Type 0
IsFree d =
    (d.sem_command_execute ≡ false)
    × (d.sem_connect ≡ false)
    × (d.sem_command_cancel ≡ false)
    × (d.cancel_flag ≡ false)

-- The posts at the end of a connect or a disconnect go through.
abbrev pub Posts : ConnectCalls → Type 0
Posts calls = (calls.posts_command ≡ true) × (calls.posts_connect ≡ true)

abbrev Leaves : ReaderCode × Device → Type 0
Leaves r = IsFree r.1

pub connect_device-IsFree :
    (calls : ConnectCalls) (port baudrate : ℕ) (d : Device)
    → Posts calls
    → IsFree d
    → IsFree (connect_device calls port baudrate d).1
unfolding connect_device connect_wait connect_taken connect_post rs232c_init
connect_device-IsFree calls port baudrate d (p, q) f =
    let begun =
      if-both IsFree calls.inits_own
        (record d { sem_command_execute = false; sem_connect = false; sem_command_cancel = false })
        d (refl, refl, refl, f.3) f in
    if-both Leaves (bad_port port || not (good_baudrate baudrate)) _ _ f (
      if-both Leaves (not (calls.inits_own && calls.inits_others)) _ _ begun (
        if-both Leaves (not calls.waits_connect) _ _ begun (
          if-both Leaves (not calls.waits_command) _ _ (begun.0, refl, begun.2, begun.3)
            (if-both Leaves (rs232c_init calls d).connect_flag _ _ (refl, refl, begun.2, begun.3)
              (if-both Leaves (not calls.opens) _ _ (refl, refl, begun.2, begun.3)
                (if-else Leaves (not calls.posts_command) _ _ (ap not p) (
                  if-else Leaves (not calls.posts_connect) _ _ (ap not q)
                    (refl, refl, begun.2, refl))))))))

pub disconnect_device-IsFree :
    (calls : ConnectCalls) (port : ℕ) (d : Device)
    → Posts calls
    → IsFree d
    → IsFree (disconnect_device calls port d).1
unfolding disconnect_device disconnect_wait disconnect_post
disconnect_device-IsFree calls port d (p, q) f = if-both Leaves (bad_port port) _ _ f (
    if-both Leaves (not d.connect_flag) _ _ f (
      if-both Leaves (not calls.waits_connect) _ _ f (
        if-both Leaves (not calls.waits_command) _ _ (f.0, refl, f.2, f.3)
          (if-else Leaves (not calls.posts_command) _ _ (ap not p)
            (if-else Leaves (not calls.posts_connect) _ _ (ap not q) (refl, refl, f.2, f.3))))))

-- The mutex and the post of a cancel go through.
abbrev pub CancelPosts : CancelCalls → Type 0
CancelPosts calls = (calls.locks ≡ true) × (calls.unlocks ≡ true) × (calls.posts ≡ true)

cancel_end-IsFree :
    (calls : CancelCalls) (code : Option ReaderCode) (d : Device)
    → calls.posts ≡ true
    → d.sem_command_execute ≡ false
    → d.sem_connect ≡ false
    → IsFree (cancel_end calls code d).1
unfolding cancel_end
cancel_end-IsFree calls code d p a b = elim (Bool-cases calls.posts) [
  | inl posted ↦ rw posted (a, b, refl, refl)
  | inr failed ↦ absurd (ground (arith, p, failed))
]

cancel_sent-IsFree :
    (calls : CancelCalls) (e : ReaderCode) (d : Device)
    → calls.posts ≡ true
    → d.sem_command_execute ≡ false
    → d.sem_connect ≡ false
    → IsFree (cancel_sent calls e d).1
unfolding cancel_sent
cancel_sent-IsFree calls no_error d p a b =
    if-both (λ (r : CancelResult). IsFree (r.1)) d.cancel_receive_flag _ _
      (cancel_end-IsFree calls _ d p a b) (cancel_end-IsFree calls _ d p a b)
cancel_sent-IsFree calls e d p a b = cancel_end-IsFree calls _ d p a b

pub cancel_command-IsFree :
    (calls : CancelCalls) (port : ℕ) (d : Device)
    → CancelPosts calls
    → IsFree d
    → IsFree (cancel_command calls port d).1
unfolding cancel_command cancel_taken
cancel_command-IsFree calls port d (l, u, p) f =
    if-both (λ (r : CancelResult). IsFree (r.1)) (bad_port port) _ _ f
      (if-both (λ (r : CancelResult). IsFree (r.1)) (not d.connect_flag) _ _ f
        (if-both (λ (r : CancelResult). IsFree (r.1)) (not calls.waits) _ _ f
          (if-else (λ (r : CancelResult). IsFree (r.1)) (not (calls.locks && calls.unlocks)) _ _
            (ground (arith, l, u))
            (if-both (λ (r : CancelResult). IsFree (r.1)) (ltb 1 calls.command_step) _ _
              (cancel_end-IsFree calls none _ p f.0 f.1)
              (cancel_sent-IsFree calls _ _ p f.0 f.1)))))
