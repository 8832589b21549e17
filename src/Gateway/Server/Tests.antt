-- ===== src/Gateway/Server/Tests.antt =====
-- A server with two permits, and the theorems at concrete inputs.
use aegis_honeypot.Prelude.{ℕ, ◌+◌, ◌≤◌, ◌≡◌, refl, [], Option, some, arith, length, count}
use aegis_honeypot.Prelude.HashMap.{get, insert, remove}
use aegis_honeypot.Prelude.Text.{codes, decimal}
use aegis_honeypot.Net.{IpAddr, v4, ip_beq, ip_eq}
use aegis_honeypot.Gateway.Admission.{
  admission_key, new, sweep, sweep_is_due, prune, admit_entry, admit_swept, try_admit, release,
  release_entry,
}
use aegis_honeypot.Gateway.Egress.{SocketAddr}
use aegis_honeypot.Gateway.Server.{Provider, new_client, drop_session}
use aegis_honeypot.Gateway.Server.Slots.{
  Service, arrived, History, opens, goes, arrives, idle, permits-live, live-le-max_per_ip,
}

program : Unit {0}
unfolding get insert remove ip_beq decimal admission_key new sweep sweep_is_due prune admit_entry
    admit_swept try_admit release release_entry new_client drop_session
program = tt

abbrev provider : Provider ℕ ℕ
provider = record {
  session_id = λ now. codes "abc";
  provision = λ meta. some (some 7);
  vfs = λ sandbox. 0;
}

abbrev host : IpAddr
host = v4 (record { o0 = 203; o1 = 0; o2 = 113; o3 = 5 })

abbrev peer : Option SocketAddr
peer = some (record { ip = host; port = 4444 })

abbrev first : Service
first = arrived (new_client {F = ℕ} provider (idle 3 9 2 0).server peer 5) [] 5

abbrev second : Service
second = arrived (new_client {F = ℕ} provider first.server peer 6) first.live 6

abbrev third : Service
third = arrived (new_client {F = ℕ} provider second.server peer 7) second.live 7

-- The third finds no permit.
two_live : length third.live ≡ 2
unfolding program
two_live = refl

third-History : History ℕ provider (idle 3 9 2 0) third
unfolding program
third-History =
    goes
      (goes (goes opens (arrives peer 5 (omega arith) (omega arith)))
        (arrives peer 6 (omega arith) (omega arith)))
      (arrives peer 7 (omega arith) (omega arith))

permits-live_example : third.server.session_semaphore + length third.live ≡ 2
permits-live_example = permits-live 3 9 2 0 ℕ provider third-History

live-le-max_per_ip_example : count host third.live ≤ 3
live-le-max_per_ip_example =
    live-le-max_per_ip 3 9 2 0 ℕ provider (omega arith) third-History host (omega arith)
