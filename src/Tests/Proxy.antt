-- ===== src/Tests/Proxy.antt =====
-- internal/proxy: single turns of the loops.
use awg_proxy_go.Prelude.{
  ℕ, ◌≤◌, ◌≡◌, refl, true, List, [], ◌∷◌, ◌++◌, none, some, length, length-replicate, replicate,
  drop, All, done, arith,
}
use awg_proxy_go.Prelude.Int.{pos}
use awg_proxy_go.Prelude.Netip.{v4}
use awg_proxy_go.Prelude.Bytes.{put_bytes}
use awg_proxy_go.Wg.{type, type_init, type_response, sender_index, receiver_index}
use awg_proxy_go.Awg.Transform.{write_mac1, deobfuscate, obfuscate}
use awg_proxy_go.Awg.Transform.Standard.{IsStandard}
use awg_proxy_go.Awg.Identify.{client_pub_from_init, open_static}
use awg_proxy_go.Router.Snapshot.{Snapshot, Upstream}
use awg_proxy_go.Proxy.Sessions.{Table, new_table, zero_key}
use awg_proxy_go.Proxy.Sessions.Invariant.{new_table-IsValid}
use awg_proxy_go.Proxy.Server.{client_packet, server_packet}
use awg_proxy_go.Proxy.Server.Forwarding.{IsForwarded, client_packet-IsForwarded}
use awg_proxy_go.Proxy.Server.Handshake.{handshake}
use awg_proxy_go.Proxy.Client.{ClientProxy, router_packet, awg_packet}
use awg_proxy_go.Proxy.Client.Turns.{reply_returns, init_burst}
use awg_proxy_go.Tests.Awg.{
  toy_mac, params, zeros, key, response, response_wire, other_key, wire_read,
}
use awg_proxy_go.Tests.Identify.{toy_noise}

abbrev upstream : Upstream
upstream = record {
  peer_id = "*1";
  server_pub = other_key;
  remote_addr = (v4 0x0a000001, 51820);
  psk = zero_key;
  comment = "";
}

abbrev snap : Snapshot
snap = record {
  server_pub = key;
  server_priv = replicate 32 9;
  wg_listen_port = pos 51820;
  client_pubs = other_key ∷ [];
  upstream = some upstream;
}

-- The client chose the index 77; its key is 32 bytes of 4.
abbrev init : List ℕ
init = write_mac1 toy_mac key 1 (1 ∷ 0 ∷ 0 ∷ 0 ∷ 77 ∷ 0 ∷ 0 ∷ 0 ∷ replicate 140 4)

abbrev init_wire : List ℕ
init_wire = zeros 16 ++ put_bytes 0xCAFEBABE (77 ∷ 0 ∷ 0 ∷ 0 ∷ replicate 140 4)

abbrev reply : List ℕ
reply = 2 ∷ 0 ∷ 0 ∷ 0 ∷ 5 ∷ 0 ∷ 0 ∷ 0 ∷ 77 ∷ 0 ∷ 0 ∷ 0 ∷ replicate 80 9

abbrev reply_wire : List ℕ
reply_wire =
    replicate 24 0 ++ write_mac1 toy_mac (replicate 32 4) 2 (put_bytes 0xDEADBEEF (drop 4 reply))

init_read : deobfuscate toy_mac params init_wire key ≡ done (some (init, type_init))
unfolding deobfuscate write_mac1
init_read = refl

init_index : sender_index (record { bytes = init; spare = [] }) ≡ done 77
unfolding sender_index write_mac1
init_index = refl

key_opened : client_pub_from_init toy_noise init (replicate 32 9) key ≡ some (replicate 32 4)
unfolding client_pub_from_init open_static write_mac1
key_opened = refl

reply_type : type reply ≡ type_response
unfolding type
reply_type = refl

reply_index : receiver_index (record { bytes = reply; spare = [] }) ≡ done 77
unfolding receiver_index type
reply_index = refl

reply_made : obfuscate toy_mac params zeros reply (replicate 32 4) ≡ done reply_wire
unfolding obfuscate write_mac1
reply_made = refl

handshake_example :
    (t1 : Table) × (t2 : Table) × (client_packet toy_mac toy_noise params
        (new_table 180)
        (some snap)
        "10.0.0.7:4000"
        init_wire
        []
        10
      ≡ done (t1, some init))
    × (server_packet toy_mac toy_noise params t1 (some snap) reply [] 20 (λ i. zeros) (λ i. true)
        ≡ done (t2, ("10.0.0.7:4000", reply_wire) ∷ []))
handshake_example =
    handshake toy_mac toy_noise params (new_table 180) snap snap "10.0.0.7:4000" init_wire [] init
      (replicate 32 4) reply [] reply_wire 77 10 20 (λ i. zeros) (λ i. true) (new_table-IsValid 180)
      init_read init_index (λ e. cc) key_opened reply_type reply_index reply_made

junk_ignored :
    client_packet toy_mac toy_noise params
      (new_table 180)
      (some snap)
      "10.0.0.7:4000"
      (zeros 50)
      []
      10
    ≡ done (new_table 180, none)
unfolding client_packet deobfuscate
junk_ignored = refl

client_packet-IsForwarded_example :
    IsForwarded toy_mac snap (new_table 180) (zeros 50) (new_table 180) none
client_packet-IsForwarded_example =
    client_packet-IsForwarded toy_mac toy_noise params (new_table 180) (new_table 180) snap
      "10.0.0.7:4000" (zeros 50) [] 10 none junk_ignored

abbrev started : ClientProxy
started = record { router_src = none; last_log = 0 }

init_obfuscated :
    obfuscate toy_mac params zeros init other_key
    ≡ done (zeros 16 ++ write_mac1 toy_mac other_key 1 (put_bytes 0xCAFEBABE (drop 4 init)))
unfolding obfuscate write_mac1
init_obfuscated = refl

typed : type init ≡ type_init
unfolding type write_mac1
typed = refl

init_burst_example :
    (junk : List (List ℕ)) × (router_packet toy_mac params
        (λ i k. 0)
        (λ i. zeros)
        zeros
        (λ i. true)
        started
        (some snap)
        "10.0.0.1:51820"
        init
        30
      ≡ done (
        record { router_src = some "10.0.0.1:51820"; last_log = 0 },
        junk
            ++ (zeros 16 ++ write_mac1 toy_mac other_key 1 (put_bytes 0xCAFEBABE (drop 4 init)))
              ∷ [],
      ))
    × (length junk ≡ 3)
    × All (λ j. (40 ≤ length j) × (length j ≤ 70)) junk
init_burst_example =
    init_burst toy_mac params (λ i k. 0) (λ i. zeros) zeros (λ i. true) started snap upstream
      "10.0.0.1:51820" init _ 30 (λ i k h. h) (λ i n. length-replicate n 0) refl (omega arith)
      (omega arith) (omega arith) refl typed (λ k. refl) init_obfuscated

-- The router's packet is dropped, since no snapshot is there, but its address is kept.
router_dropped :
    router_packet toy_mac params
      (λ i k. 0)
      (λ i. zeros)
      zeros
      (λ i. true)
      started
      none
      "10.0.0.1:51820"
      init
      30
    ≡ done (record { router_src = some "10.0.0.1:51820"; last_log = 0 }, [])
unfolding router_packet
router_dropped = refl

reply_returns_example :
    (awg_packet toy_mac params
        (record { router_src = some "10.0.0.1:51820"; last_log = 0 })
        (some snap)
        response_wire
        40
      ≡ done (
        record { router_src = some "10.0.0.1:51820"; last_log = 0 },
        some ("10.0.0.1:51820", response),
      ))
    × IsStandard toy_mac key 2 response
reply_returns_example =
    reply_returns toy_mac params (λ i k. 0) (λ i. zeros) zeros (λ i. true) started
      (record { router_src = some "10.0.0.1:51820"; last_log = 0 }) none snap "10.0.0.1:51820" init
      response_wire response [] 2 30 40 router_dropped wire_read
