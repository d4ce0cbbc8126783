-- ===== src/Server.antt =====
-- The two servers that answer one request on each connection: src/main.cc on the `IOManager`, and
-- epoll/epoll.cc on epoll alone. What a socket call returns is an argument.
pub mod Receive
pub mod Accept
pub mod Relisten
pub mod Loop
pub mod Ordered
mod Tests
use coroutinelib.Base.{ℕ}

-- What a server does to a connection: the response is sent, the descriptor is closed.
pub data Action : Type 0 where
  send : (fd : ℕ) → Action
  close : (fd : ℕ) → Action
