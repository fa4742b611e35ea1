-- ===== src/Lib.antt =====
-- A verification of rustdesk-server-nemo, the rendezvous and relay server of a remote-desktop fleet
-- with its management service.
--
-- The program. Clients register with the rendezvous server (hbbs, rendezvous_server.rs), which brokers
-- sessions between them and hands both sides a grant for the relay (hbbr, relay_server.rs). Over it
-- stands the management service (nemo_management.rs), which answers the operator's dashboard and the
-- clients' polls. Who may do what is kept in nemo_integration.rs: the allowlist of directory users
-- with their targets and policies, the pinned device keys with their bindings and pending claims, the
-- sessions of users who signed in, and the throttles on signing in. Each other part asks that one.
--
-- The model. Integration follows nemo_integration.rs.
--   Integration/Config: IntegrationConfig and the process state (CONFIG, SESSIONS, AB_VERSION and the
--     two files) as the record World. A lock is held for the whole of each function, so a function is
--     one step from a World to a World.
--   Integration/DeviceKeys: ids, pinning, the binding rule (device_key_binding_decision), claims
--     (claim_device_key_in), binding by hand and revocation.
--   Integration/Claims: requests for a binding (register_pending_claim), their caps and the eviction,
--     and the operator's approval, denial and forgetting.
--   Integration/Permissions: update_permissions, set_user_enabled, record_login, the sessions that a
--     change ends, and the policy of a user.
--   Integration/Settings: named policies, devices that they are assigned to, the directory settings
--     and the switches. Integration/Sessions: tokens. Integration/Login: backoff and the guard against
--     spraying. Integration/Names and Integration/Directory: account names and LDAP filters.
-- Relay follows relay_server.rs and the relay grants of common.rs.
--   Relay/Grant: relay_grant_mint and relay_grant_verify over a record of base64 and signatures.
--   Relay/Pairing: handle_connection, make_pair, relay_key_exchange, and make_pair_ cut at its waits:
--     the state Hbbr is PEERS, USAGE, SESSION_LABELS and the two lists.
--   Relay/Session: the loop of relay, on the events that its select! answers and the clock that it
--     reads; each forwarded frame, each charge to a limiter and each report is in its state.
-- Management follows the guards of nemo_management.rs.
--   Management/Replay: sealed_login_guard and sealed_request_guard over the table of nonces.
--   Management/Proof: verify_device_signature_proof, over a record of base64, signatures and UTF-8; it
--     calls Integration for the binding rule and for filing a request.
--   Management/Controller: resolve_controller_identity on the marker of a request, and
--     target_allowed_by_controller_policy.
--   Management/Secrets: masking, restoring and stripping the secret options of a policy.
--   Management/Policy: the options that a policy may set, and reading a stored one.
--   Management/Gates: controller_policy_rejection_from_field and nemo_user_rejection_from_field, which
--     a controller passes before a session is brokered, and control_permissions_for.
--   Management/Usage: record_relay_grant and apply_relay_usage, the bytes that sessions relayed.
--   Management/Endpoints: the endpoints that a controller may dial without a broker.
-- Peers follows peer.rs and database.rs: the memory PeerMap in front of a table.
--   Peers/Table: the queries, on a list of rows. Peers/Mirror and Peers/Status: what the memory shows of
--     the table. Peers/Outage: what an outage leaves in the memory.
-- Rendezvous follows rendezvous_server.rs.
--   Rendezvous/State: RendezvousServer and the tables beside it as the record Hbbs, with the records
--     for the statistics and the messages that were sent; Outside is what other packages give.
--   Rendezvous/Blocker: check_ip_blocker. Rendezvous/Registration: register_pk_core and
--     update_addr_core. Rendezvous/Reach: get_pk, push_to_peer, the pending relays and other helpers.
--   Rendezvous/Punch: handle_punch_hole_request. Rendezvous/Grants: the arms RequestRelay and
--     RelayResponse of handle_tcp, and the answers to a punch. They ask Management/Gates.
--   Rendezvous/Dispatch: handle_tcp and handle_udp by the kind of frame, and handle_online_request.
--     Its children follow an entry of the pending relays, and what is sent, through every frame.
--   Rendezvous/Handshake: the start of handle_listener_inner with nemo_client_auth_open, which asks
--     Integration for the binding rule.
-- Base holds what they share: lists, maps, text, results.
--
-- How the code is read. A String is the list of its code points; a HashMap is an association list, in
-- which an insertion keeps the place of its key, and a theorem that needs each key once says so
-- (IsMap). A Vec is a list. The time, fresh tokens and Unicode lower-casing (to_lowercase) are
-- arguments. u32 and u64 sums that saturate are written out. A failed write to disk leaves the old
-- file: World.disk_ok says which. Log lines are left out, and so are numbers inside error texts.
--
-- A handler of the rendezvous server is one step: the clock stands still while it runs, and the
-- database answers all of its queries or none (Database.up). A map of the server is a function from its
-- keys. A connection is a number, by which its sink, its cipher and its push channel go; what a
-- connection task holds of the configuration is read from the state. Peers that are in memory are
-- written through it, as a LockPeer is shared.
--
-- usize sums of the relay wrap, and are written so. The relay's downgrade threshold comes out of
-- floating-point arithmetic at the start of a session and is an argument.
--
-- Fuel. The loop of device_key_id_for has one round for each character of the key; the eviction loops
-- of register_pending_claim_in, of sealed_login_guard and of record_relay_grant have one for each row.
-- Each has a theorem that this is enough.
--
-- Not modelled: the directory client and certificates, the management service's routes and records
-- with its other statistics and its update manifest, the command ports of the rendezvous server
-- and of the relay, the loops that own sockets and start-up, the SQL that creates and lists the table,
-- the admin pages and the desktop manager.
pub mod Base
pub mod Integration
pub mod Management
pub mod Relay
pub mod Peers
pub mod Rendezvous
