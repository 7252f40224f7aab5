-- ===== src/Daemon/Server/Acts.antt =====
-- The histories of a connection of crates/wiilandd/src/ipc.
use wiiland.Prelude.{ℕ, Bool, List, [], ◌∷◌, ◌++◌}
use wiiland.Ipc.Frame.{Result}
use wiiland.Ipc.Protocol.{ResponseResult, Notification}
use wiiland.Daemon.Client.{Client, Write}
use wiiland.Daemon.Client.Requests.{Services}
use wiiland.Daemon.Client.Reads.{Read}
use wiiland.Daemon.Client.Greeted.{chunks}
use wiiland.Daemon.Server.{drained, complete, notify, serve_ready}

module _ (services : Services) where
  -- What happens to a connection: its socket is ready, a command is completed, its commands are
  -- taken, or a notification is published.
  pub data Act : Type 0 where
    ready : Bool → Bool → List Read → List Write → Act
    completed : ℕ → Result ResponseResult → Act
    taken : Act
    published : Notification → List ℕ → Act

  unfoldable pub act : Client → Act → Client
  act self (ready readable writable reads writes) =
      (serve_ready services readable writable reads writes self).0
  act self (completed id result) = complete services self id result
  act self taken = drained self
  act self (published note frame) = notify services note frame self

  unfoldable pub act_all : Client → List Act → Client
  act_all self [] = self
  act_all self (a ∷ acts) = act_all (act self a) acts

  -- The texts that are read from its socket.
  abbrev pub arrivals : List Act → List (List ℕ)
  arrivals [] = []
  arrivals (ready readable writable reads writes ∷ acts) = chunks reads ++ arrivals acts
  arrivals (completed id result ∷ acts) = arrivals acts
  arrivals (taken ∷ acts) = arrivals acts
  arrivals (published note frame ∷ acts) = arrivals acts
