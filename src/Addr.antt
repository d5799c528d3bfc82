-- ===== src/Addr.antt =====
-- st_socket.h and st_socket.cpp: an address as `host:port`. What inet_aton, atoi and htons answer are
-- parameters.
use basicmatch.Base.{
  ℕ, suc, ◌+◌, ◌%◌, ◌^◌, ◌≡◌, ◌≢◌, ◌==◌, true, false, [], ◌∷◌, ◌++◌, Option, none, some, Text, take,
  drop, length, refl, arith, ap, All, ◌∙◌, if◌then◌else◌, take-append,
}
use mathlib.Core.Option

-- The fields of sockaddr_in that are written, and port_.
pub record SocketAddr : Type 0 where
  pub s_addr : ℕ
  pub sin_port : ℕ
  pub sin_family : ℕ
  pub port : ℕ

-- INADDR_ANY and AF_INET
abbrev pub any_address : ℕ
any_address = 0

abbrev pub af_inet : ℕ
af_inet = 2

-- addr.find(':')
unfoldable pub find_char : ℕ → Text → Option ℕ
find_char c [] = none
find_char c (d ∷ ds) = if d == c then some 0 else Option.map suc (find_char c ds)

module _ (inet_aton : Text → Option ℕ) (atoi : Text → ℕ) (htons : ℕ → ℕ) where
  -- init(addr_str, port): an address that is not one leaves INADDR_ANY there.
  unfoldable pub init : Option Text → ℕ → SocketAddr
  init addr_str port = record {
    s_addr = Option.get_or (Option.bind addr_str inet_aton) any_address;
    sin_port = htons (port % 2 ^ 16);
    sin_family = af_inet;
    port = port % 2 ^ 16;
  }

  -- SocketAddr()
  unfoldable pub any_addr : SocketAddr
  unfolding init
  any_addr = init none 0

  -- The host up to the colon and the port behind it, or the host alone.
  unfoldable pub addr_at : Text → Option ℕ → SocketAddr
  addr_at addr none = init (some addr) 0
  addr_at addr (some pos) = init (some (take pos addr)) (atoi (drop (pos + 1) addr))

  -- SocketAddr(addr)
  unfoldable pub new_addr : Text → SocketAddr
  unfolding init find_char addr_at
  new_addr addr = addr_at addr (find_char b':' addr)

find_char-none : (c : ℕ) (s : Text) → All (λ d. d ≢ c) s → find_char c s ≡ none
unfolding find_char
find_char-none c [] h = refl
find_char-none c (d ∷ ds) h =
    let other : (d == c) ≡ false = ground (arith, h.0) in rw (other, find_char-none c ds h.1) refl

find_char-first :
    (c : ℕ) (s rest : Text) → All (λ d. d ≢ c) s → find_char c (s ++ c ∷ rest) ≡ some (length s)
unfolding find_char
find_char-first c [] rest h = let same : (c == c) ≡ true = ground arith in rw same refl
find_char-first c (d ∷ ds) rest h =
    let other : (d == c) ≡ false = ground (arith, h.0) in
    rw (other, find_char-first c ds rest h.1) refl

abbrev pub HasNoColon : Text → Type 0
HasNoColon = All (λ d. d ≢ b':')

drop-suc : (host port : Text) → drop (suc (length host)) (host ++ b':' ∷ port) ≡ port
drop-suc [] port = refl
drop-suc (d ∷ ds) port = drop-suc ds port

drop-colon : (host port : Text) → drop (length host + 1) (host ++ b':' ∷ port) ≡ port
drop-colon host port =
    let one_more : length host + 1 ≡ suc (length host) = omega arith in
    ap (λ n. drop n (host ++ b':' ∷ port)) one_more ∙ drop-suc host port

-- A host without a colon is taken with what follows the first colon as its port, reduced modulo 2 ^ 16
-- before it goes into network order; and without a colon the whole text is the host, and the port is
-- 0. A host that is no address leaves INADDR_ANY.
pub new_addr-parts :
    (inet_aton : Text → Option ℕ) (atoi : Text → ℕ) (htons : ℕ → ℕ) (host port : Text)
    → HasNoColon host
    → (new_addr inet_aton atoi htons (host ++ b':' ∷ port) ≡ record {
      s_addr = Option.get_or (inet_aton host) any_address;
      sin_port = htons (atoi port % 2 ^ 16);
      sin_family = af_inet;
      port = atoi port % 2 ^ 16;
    })
      × (new_addr inet_aton atoi htons host ≡ record {
        s_addr = Option.get_or (inet_aton host) any_address;
        sin_port = htons 0;
        sin_family = af_inet;
        port = 0;
      })
unfolding new_addr addr_at init Option.bind
new_addr-parts inet_aton atoi htons host port h = (
  rw (find_char-first b':' host port h, take-append host (b':' ∷ port), drop-colon host port) refl,
  rw (find_char-none b':' host h) refl,
)
