-- ===== src/Server/SocketLaws.antt =====
-- The descriptors that src/core/server.c opens and closes.
use freehttpd.Base.{
  ℕ, ◌≡◌, refl, sym, ap, inl, inr, Bool, true, false, List, [], ◌∷◌, ◌++◌, ◌⊎◌, none, some, arith,
  ◌&&◌, if◌then◌else◌, Option, Bool-cases, Option-cases, update, u16, subst,
}
use freehttpd.Server.Config.{Server}
use freehttpd.Server.Socket.{Calls, Kernel, configure, close_newest, create_socket}
use freehttpd.Server.Run.{keep_socket, open_sockets}

-- `fh_server_create_socket` either fails and leaves the process with the descriptors and ports that
-- it had, or returns a descriptor that is open and bound to the port, the only one it opened.
pub create_socket_lem :
    (calls : Calls) (port : ℕ) (k : Kernel)
    → (create_socket calls port k ≡ (none, k))
      ⊎ ((fd : ℕ) × (calls.socket ≡ some fd)
          × (configure calls ≡ true)
          × (calls.bind port ≡ true)
          × (create_socket calls port k
              ≡ (some fd, record { opened = fd ∷ k.opened; bound = (port, fd) ∷ k.bound })))
unfolding create_socket close_newest
create_socket_lem calls port k = elim (Option-cases calls.socket) [
  | inl e ↦ inl (rw e)
  | inr (fd, e) ↦ elim (Bool-cases (configure calls)) [
    | inl c ↦ elim (Bool-cases (calls.bind port)) [
      | inl b ↦ inr (fd, e, c, b, (rw (e, c, b)))
      | inr b ↦ inl (rw (e, c, b))
    ]
    | inr c ↦ inl (rw (e, c))
  ]
]

-- the descriptor that the calls give for a port, where all of them succeed
unfoldable pub usable : Calls → ℕ → Option ℕ
usable calls port = if configure calls && calls.bind port then calls.socket else none

-- one more socket in the process
abbrev with_socket : ℕ → ℕ → Kernel → Kernel
with_socket port fd k = record { opened = fd ∷ k.opened; bound = (port, fd) ∷ k.bound }

socket_cases :
    (calls : Calls) (port : ℕ) (k : Kernel)
    → ((usable calls port ≡ none) × (create_socket calls port k ≡ (none, k)))
      ⊎ ((fd : ℕ) × (usable calls port ≡ some fd)
          × (create_socket calls port k ≡ (some fd, with_socket port fd k)))
unfolding create_socket close_newest usable
socket_cases calls port k = elim (Option-cases calls.socket) [
  | inl e ↦ inl (ground (arith, e), (rw e))
  | inr (fd, e) ↦ elim (Bool-cases (configure calls)) [
    | inl c ↦ elim (Bool-cases (calls.bind port)) [
      | inl b ↦ inr (fd, (rw (c, b) e), (rw (e, c, b)))
      | inr b ↦ inl ((rw (c, b) refl), (rw (e, c, b)))
    ]
    | inr c ↦ inl ((rw (c) refl), (rw (e, c)))
  ]
]

-- the sockets, one for each port
unfoldable pub AreGiven : (ℕ → Calls) → List (ℕ × ℕ) → List (ℕ × ℕ) → Type 0
AreGiven calls [] [] = Unit
AreGiven calls [] (s ∷ sockets) = ⊥
AreGiven calls ((key, p) ∷ ports) [] = ⊥
AreGiven calls ((key, p) ∷ ports) ((port, fd) ∷ sockets) =
    (port ≡ u16 key) × (usable (calls port) port ≡ some fd) × AreGiven calls ports sockets

-- the process with these sockets open and bound, the last one newest
unfoldable pub with_sockets : List (ℕ × ℕ) → Kernel → Kernel
with_sockets [] k = k
with_sockets ((port, fd) ∷ sockets) k = with_sockets sockets (with_socket port fd k)

-- a port is left, and the first has no usable socket
unfoldable pub IsStuck : (ℕ → Calls) → List (ℕ × ℕ) → Type 0
IsStuck calls [] = ⊥
IsStuck calls ((key, p) ∷ ports) = usable (calls (u16 key)) (u16 key) ≡ none

module _ {H : Type 0} where
  -- What the loop over the ports does: the ports `before` have their sockets, and those after them
  -- have none.
  pub record IsOpened (calls : ℕ → Calls) (ports : List (ℕ × ℕ)) (k : Kernel)
      (r : Bool × (Server H × Kernel)) : Type 0 where
    pub before : List (ℕ × ℕ)
    pub after : List (ℕ × ℕ)
    pub parts : ports ≡ before ++ after
    pub sockets : List (ℕ × ℕ)
    pub given : AreGiven calls before sockets
    pub process : r.1.1 ≡ with_sockets sockets k
    pub end : ((r.0 ≡ true) × (after ≡ [])) ⊎ ((r.0 ≡ false) × IsStuck calls after)

  -- The loop of `fh_server_process_config` over the ports opens and binds one socket for each port, in
  -- their order, up to the first port that has no usable socket. If there is no such port, it
  -- succeeds. Otherwise it fails, and the sockets of the ports before that one stay open and bound;
  -- no other socket is opened or closed.
  pub open_sockets_lem :
      (calls : ℕ → Calls) (ports : List (ℕ × ℕ)) (s : Server H) (k : Kernel)
      → IsOpened calls ports k (open_sockets calls ports s k)
  unfolding open_sockets keep_socket AreGiven with_sockets IsStuck
  open_sockets_lem calls [] s k = record {
    before = [];
    after = [];
    parts = refl;
    sockets = [];
    given = tt;
    process = refl;
    end = inl (refl, refl);
  }
  open_sockets_lem calls ((key, p) ∷ ports) s k =
      elim (socket_cases (calls (u16 key)) (u16 key) k) [
        | inl (stuck, e) ↦
            let same : open_sockets calls ((key, p) ∷ ports) s k ≡ (false, (s, k)) =
              ap (keep_socket (λ s' k'. open_sockets calls ports s' k') p s) e in
            subst (λ (r : Bool × (Server H × Kernel)). IsOpened calls ((key, p) ∷ ports) k r)
              (sym same)
              (record {
                before = [];
                after = (key, p) ∷ ports;
                parts = refl;
                sockets = [];
                given = tt;
                process = refl;
                end = inr (refl, stuck);
              })
        | inr (fd, yes_fd, e) ↦
            let next = record s {
              port_entries = update s.port_entries p (record (s.port_entries p) { sockfd = fd });
            } in
            let ih = open_sockets_lem calls ports next (with_socket (u16 key) fd k) in
            let same : open_sockets calls ((key, p) ∷ ports) s k
                ≡ open_sockets calls ports next (with_socket (u16 key) fd k) =
              ap (keep_socket (λ s' k'. open_sockets calls ports s' k') p s) e in
            subst (λ (r : Bool × (Server H × Kernel)). IsOpened calls ((key, p) ∷ ports) k r)
              (sym same)
              (record {
                before = (key, p) ∷ ih.before;
                after = ih.after;
                parts = ap (λ ps. (key, p) ∷ ps) ih.parts;
                sockets = (u16 key, fd) ∷ ih.sockets;
                given = (refl, yes_fd, ih.given);
                process = ih.process;
                end = ih.end;
              })
      ]
