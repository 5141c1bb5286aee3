-- ===== src/TcpServer/Listening.antt =====
-- Starting to listen, and what destroying the server gives back, whatever the kernel answers.
use rapp.Prelude.{
  ℕ, suc, ◌-◌, ◌≡◌, refl, ◌∙◌, ap, Bool, true, false, Option, List, [], ◌∷◌, ◌==◌, if◌then◌else◌,
  if_cases, Text, ℤ, pos, negsuc, ltb_ℤ, is_zero,
}
use rapp.Eloop.{Slots, EpollOperation}
use rapp.TcpServer.{
  Sockets, SocketOption, so_reuseaddr, so_reuseport, Started, attempt, bind_and_listen, backlog,
}

-- What the kernel and the C library hold for the program: the address lists that were found and not
-- freed, and the open descriptors, the latest first.
pub record Held : Type 0 where
  pub addresses : ℕ
  pub opened : List ℕ

abbrev pub opening : ℤ → Held → Held
opening (pos fd) h = record h { opened = fd ∷ h.opened }
opening (negsuc n) h = h

-- The first entry for the descriptor leaves the list.
unfoldable pub without : ℕ → List ℕ → List ℕ
without fd [] = []
without fd (x ∷ xs) = if x == fd then xs else x ∷ without fd xs

abbrev pub less : Held → Held
less h = record h { addresses = h.addresses - 1 }

-- How the calls change it: getaddrinfo(3), socket(2) and close(2).
pub record Accounted {K : Type 0} (sys : Sockets K) : Type 0 where
  pub held : K → Held
  pub looked_up :
      (host port : Text) (k : K)
      → held (sys.getaddrinfo host port k).1 ≡ (
          if is_zero (sys.getaddrinfo host port k).0
          then record (held k) { addresses = suc (held k).addresses }
          else held k)
  pub freed :
      (k : K) → held (sys.freeaddrinfo k) ≡ record (held k) { addresses = (held k).addresses - 1 }
  pub made : (k : K) → held (sys.socket k).1 ≡ opening (sys.socket k).0 (held k)
  pub optioned :
      (fd : ℤ) (option_ : SocketOption) (k : K) → held (sys.setsockopt fd option_ k).1 ≡ held k
  pub set_flag : (fd : ℤ) (k : K) → held (sys.set_nonblocking fd k).1 ≡ held k
  pub bound : (fd : ℤ) (k : K) → held (sys.bind fd k).1 ≡ held k
  pub listened : (fd : ℤ) (n : ℕ) (k : K) → held (sys.listen fd n k).1 ≡ held k
  pub polled :
      (op : EpollOperation) (x : ℕ) (mask : Option (Slots Bool)) (k : K)
      → held (sys.epoll_ctl op x mask k).1 ≡ held k
  pub closed :
      (fd : ℕ) (k : K)
      → held (sys.close (pos fd) k) ≡ record (held k) { opened = without fd (held k).opened }

if_cases_at {ℓ κ} :
    {A : Type ℓ} (P : A → Type κ) (b : Bool) (x y : A) → P x → P y → P (if b then x else y)
if_cases_at P true x y p q = p
if_cases_at P false x y p q = q

module _ {K : Type 0} (sys : Sockets K) (a : Accounted sys) where
  -- A call that changes nothing of what is held, and fails or not.
  attempt_cases {ℓ} :
      (P : Started K → Type ℓ) (call : K → ℤ × K) (failed next : K → Started K) (k : K) (h : Held)
      → a.held (call k).1 ≡ a.held k
      → ((k' : K) → a.held k' ≡ h → P (failed k'))
      → ((k' : K) → a.held k' ≡ h → P (next k'))
      → a.held k ≡ h
      → P (attempt call failed next k)
  attempt_cases P call failed next k h same f n e =
      if_cases P (ltb_ℤ (call k).0 (pos 0)) (λ _. f (call k).1 (same ∙ e))
        (λ _. n (call k).1 (same ∙ e))

  -- However the calls end, the addresses are freed once.
  pub bind_and_listen_cases {ℓ} :
      (P : Started K → Type ℓ) (reuseport_found : Bool) (fd : ℤ) (failed watch : K → Started K)
      (k : K)
      → ((k' : K) → a.held k' ≡ less (a.held k) → P (failed k'))
      → ((k' : K) → a.held k' ≡ less (a.held k) → P (watch k'))
      → P (bind_and_listen sys reuseport_found fd failed watch k)
  unfolding bind_and_listen
  bind_and_listen_cases P reuseport_found fd failed watch k f w =
      let h = a.held k in
      let freed = λ (k : K). failed (sys.freeaddrinfo k) in
      let give_up : ((k' : K) → a.held k' ≡ h → P (freed k')) =
        λ k' e. f (sys.freeaddrinfo k') (a.freed k' ∙ ap less e) in
      let listening =
        λ (k : K). attempt (sys.listen fd backlog) failed watch (sys.freeaddrinfo k) in
      let bind_next : ((k' : K) → a.held k' ≡ h → P (listening k')) = λ k' e.
        attempt_cases P (sys.listen fd backlog) failed watch (sys.freeaddrinfo k') (less h)
          (a.listened fd backlog (sys.freeaddrinfo k')) f w (a.freed k' ∙ ap less e) in
      let bound = attempt (sys.set_nonblocking fd) freed (attempt (sys.bind fd) freed listening) in
      let bound_next : ((k' : K) → a.held k' ≡ h → P (bound k')) = λ k' e.
        attempt_cases P (sys.set_nonblocking fd) freed (attempt (sys.bind fd) freed listening) k' h
          (a.set_flag fd k') give_up
          (λ k'' e'.
            attempt_cases P (sys.bind fd) freed listening k'' h (a.bound fd k'') give_up bind_next
              e')
          e in
      let reuse =
        if reuseport_found then attempt (sys.setsockopt fd so_reuseport) freed bound else bound in
      attempt_cases P (sys.setsockopt fd so_reuseaddr) freed reuse k h
        (a.optioned fd so_reuseaddr k) give_up
        (λ k' e.
          if_cases_at (λ (next : K → Started K). P (next k')) reuseport_found
            (attempt (sys.setsockopt fd so_reuseport) freed bound) bound
            (attempt_cases P (sys.setsockopt fd so_reuseport) freed bound k' h
              (a.optioned fd so_reuseport k') give_up bound_next e)
            (bound_next k' e))
        refl
