-- ===== src/Honeypots/Sessions.antt =====
-- The sessions of the Telnet and the SSH server follow the protocol, whatever the client sends.
use honeypot_m1spro.Base.{
  ℕ, ◌≤◌, String, ◌≡◌, refl, inl, inr, Bool, true, ◌&&◌, List, [], ◌∷◌, arith, ◌==◌, Bool-cases,
  Option-cases, is_some, any,
}
use honeypot_m1spro.Shell.{new_shell, FakeShell}
use honeypot_m1spro.Shell.Session.{run-total}
use honeypot_m1spro.Events.{services, event_types}
use honeypot_m1spro.Events.Contract.{build_event_iff}
use honeypot_m1spro.Honeypots.{
  type_of, emit, readline, telnet_loop, telnet_try, telnet_handle, Emission, connect, disconnect,
  auth_attempt, auth_success, command, file_access, ftp_command, Peer, Read, line, reset,
}
use honeypot_m1spro.Honeypots.Trace.{
  Run-append, start, inside, over, Run, stop, step, connects, tries, enters, runs, gives_up, leaves,
}

telnet_loop-Run : (sh : FakeShell) (reads : List Read) → Run inside (telnet_loop sh reads) inside
unfolding telnet_loop
telnet_loop-Run sh [] = stop inside
telnet_loop-Run sh (reset ∷ reads) = stop inside
telnet_loop-Run sh (line text at_eof ∷ reads) = elim (Bool-cases (text == "" && at_eof)) [
  | inl ended ↦ rw (ended, telnet_loop) (stop inside)
  | inr more ↦
      let (out, sh', answered) = run-total sh text in
      elim (Bool-cases (out == "__EXIT__")) [
        | inl leaving ↦
            rw (more, telnet_loop) (rw answered (rw leaving (step (runs text) (stop inside))))
        | inr staying ↦
            rw (more, telnet_loop)
              (rw answered (rw staying (step (runs text) (telnet_loop-Run sh' reads))))
      ]
]

-- Every session of the Telnet server is a run of the protocol from its start to its end, whatever
-- the client sends and wherever the connection breaks: the connection first, commands only after
-- the login, one disconnection, last.
pub telnet_handle-Run : (reads : List Read) → Run start (telnet_handle reads) over
unfolding telnet_handle telnet_try
telnet_handle-Run reads = elim (Option-cases (readline reads)) [
  | inl broken ↦ rw (broken, telnet_try) (step connects (step gives_up (stop over)))
  | inr ((username, rest), got) ↦ elim (Option-cases (readline rest)) [
    | inl broken ↦ rw (got, telnet_try) (rw (broken) (step connects (step gives_up (stop over))))
    | inr ((password, lines), given) ↦
        rw (got, telnet_try)
          (rw given (
            step connects (
              step (tries _ _) (
                step (enters _ _)
                  (Run-append (telnet_loop-Run new_shell lines) (step leaves (stop over)))))))
  ]
]

-- The draw that accepts an attempt.
abbrev is_accepted : (String × String) × Bool → Bool
is_accepted (_, accepted) = accepted

-- Every emission of a session on a legal port passes the contract, so no emission raises.
pub emit-total :
    (service event_id : String) (listen_port now : ℕ) (peer : Peer) (emission : Emission)
    → any (λ s. s == service) services ≡ true
    → listen_port ≤ 65535
    → peer.port ≤ 65535
    → is_some (emit service listen_port peer event_id now emission) ≡ true
unfolding emit
emit-total service event_id listen_port now peer emission known listen port =
    (build_event_iff event_id now _).1 (known, port, ground arith, known_type emission)
  where
    known_type : (e : Emission) → any (λ t. t == type_of e) event_types ≡ true
    known_type connect = refl
    known_type disconnect = refl
    known_type (auth_attempt u p) = refl
    known_type (auth_success u p) = refl
    known_type (command c) = refl
    known_type (file_access c) = refl
    known_type (ftp_command c) = refl
