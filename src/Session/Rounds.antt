-- ===== src/Session/Rounds.antt =====
-- One round of each of the receiving loops.
use basicmatch.Base.{ℕ, suc, ◌+◌, ◌-◌, ◌%◌, ◌^◌, ◌≡◌, ◌==◌, ltb, List, drop, false, some, arith}
use basicmatch.Session.Buffer.{ntohl}
use basicmatch.Session.State.{Msgpack, Session, User, ◌>>◌}
use basicmatch.Session.Handlers.{handle_msg}
use basicmatch.Session.Receive.{memory, parse_loop, parse_msg, recv_cb}

module _ {O C : Type 0} (mp : Msgpack O) (user : User O C) where
  pub parse_loop-next :
      (fuel : ℕ) (buf : List ℕ) (size off next : ℕ) (obj : O) (s : Session C)
      → (off == size) ≡ false
      → mp.unpack buf size off ≡ some (obj, next)
      → parse_loop mp user (suc fuel) buf size off s
        ≡ (handle_msg mp user obj >> parse_loop mp user fuel buf size next) s
  unfolding parse_loop
  parse_loop-next fuel buf size off next obj s h k = ground (arith, h, k)

  pub recv_cb-whole :
      (fuel bytes size : ℕ) (buf header body : List ℕ) (s : Session C)
      → s.stopped ≡ false
      → ltb bytes 4 ≡ false
      → memory 4 buf ≡ some header
      → ntohl header ≡ size
      → ltb bytes size ≡ false
      → memory size (drop 4 buf) ≡ some body
      → recv_cb mp user (suc fuel) buf bytes s
        ≡ (parse_msg mp user body size
              >> recv_cb mp user fuel
                  (drop ((size + 4) % 2 ^ 32) buf)
                  ((bytes + (2 ^ 32 - (size + 4) % 2 ^ 32)) % 2 ^ 16))
            s
  unfolding recv_cb
  recv_cb-whole fuel bytes size buf header body s h1 h2 h3 h4 h5 h6 =
      ground (arith, h1, h2, h3, h4, h5, h6)
