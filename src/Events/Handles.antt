-- ===== src/Events/Handles.antt =====
-- st_socket.h and st_socket.cpp: a socket's descriptor and addresses, closing it, and sending a
-- datagram. The system calls are recorded; what they answer is a parameter.
use basicmatch.Base.{ℕ, ◌-◌, ◌^◌, Bool, List, [], ◌∷◌, ◌==◌, if◌then◌else◌, take}
use basicmatch.Addr.{SocketAddr}

-- A descriptor as the 32 bits of its int.
pub record Handle : Type 0 where
  pub fd : ℕ
  pub local_addr : SocketAddr
  pub remote_addr : SocketAddr

-- -1
abbrev pub no_fd : ℕ
no_fd = 2 ^ 32 - 1

pub data SysCall : Type 0 where
  delete_event : ℕ → SysCall
  close_fd : ℕ → SysCall
  send_to : ℕ → List ℕ → SocketAddr → SysCall

-- Socket(local_addr, remote_addr), before it is opened.
unfoldable pub new_handle : SocketAddr → SocketAddr → Handle
new_handle local_addr remote_addr = record {
  fd = 0;
  local_addr = local_addr;
  remote_addr = remote_addr;
}

-- close(): the descriptor is closed where the kernel's queue had it, and fd_ stays as it was.
unfoldable pub close : Bool → Handle → List SysCall
close deleted h = delete_event h.fd ∷ (if deleted then close_fd h.fd ∷ [] else [])

-- ~Socket()
unfoldable pub destroy : Bool → Handle → List SysCall
unfolding close
destroy deleted h = if h.fd == no_fd then [] else close deleted h

-- UdpSocket::send
unfoldable pub udp_send : List ℕ → ℕ → Handle → SysCall
udp_send bytes size h = send_to h.fd (take size bytes) h.remote_addr
