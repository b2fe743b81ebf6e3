-- ===== src/Lib.antt =====
-- Tandem moves todos between the members of a household. A hub keeps a ledger of transfers in SQLite
-- (hub/ledger.py); spokes, one per member, push the todos that carry a trigger tag, lease deliveries,
-- apply them to a local Things database, ack them, and report what became of their copies
-- (spoke/core.py). This library models the hub's ledger in full but for blocking waits, the HTTP API
-- over it (hub/api.py), the bootstrap of the hub (hub/server.py), both clients of the hub
-- (hub/direct.py, spoke/hub_http.py), the whole tick of the spoke and the loop around it (spoke/main.py),
-- and its access to Things: the reader of the database (spoke/things_db.py) and the two writers
-- (spoke/writer_local.py, spoke/writer_queue.py).
--
-- Parts:
--   Base            numbers, Booleans, options; Base/Table: what the SQL statements do to a table, as
--                   functions on lists of rows (find is SELECT with fetchone, select, any, count,
--                   update, delete, order_by, join), and the lemmas on them
--   Json            payloads and event details
--   Hub/Schema      the tables of _SCHEMA, Principal, the error classes of hub/ledger.py
--   Hub/Rows        _event, _signal_delivery, get_transfer, INSERT OR IGNORE INTO deliveries
--   Hub/Accounts    create_tenant, create_member, create_device, revoke_device,
--                   ensure_gateway_device, authenticate, principal_for_member
--   Hub/Push        member_by_handle, push_transfer, _transfer_dict
--   Hub/Lease       provenance_tag, lease_deliveries
--   Hub/Ack         ack_delivery, nack_delivery
--   Hub/Observe     watchlist, observe, _queue_echo, health
--   Hub/Invariant   the well-formedness of the transfers and deliveries, and, call by call, the proof
--                   that it is kept
--   Hub/History     the calls as the steps of one history, and what holds in every state of it
--   Hub/Direct      hub/direct.py
--   Hub/Http        requests, replies and handlers of hub/api.py: _handle, _send, _body
--   Hub/Replies     the dicts that the ledger's methods return, as JSON
--   Hub/Api         hub/api.py: _principal, _get with the long poll, _post with every route
--   Hub/Server      hub/server.py: bootstrap
--   Spoke/State     the SpokeState of spoke/core.py
--   Spoke/Outbound  the outbound phase of spoke/core.py: triggers, refusals, the envelope
--   Spoke/World     the interfaces of spoke/core.py to its reader, writer, hub client and clock
--   Spoke/Inbound   the inbound phase: _apply_create with the journal, _correlate, _apply_terminal
--   Spoke/Watch     _observe_and_retag and _retag_sender_copy
--   Spoke/Tick      tick, tick_local, tick_inbound, and sequences of them
--   Spoke/Main      the loop of main in spoke/main.py
--   Spoke/Mirror    spoke/things_db.py: _thingsdate, outbound_candidates, _snapshot, status, tags_of,
--                   correlate, on the rows of the tables that they read
--   Spoke/Queue     spoke/writer_queue.py: _request, _submit_and_wait and the four writes
--   Spoke/Focus     spoke/writer_local.py: _frontmost_name, _activate, _capture, _settle_and_watch
--   Spoke/Local     spoke/writer_local.py: _open_json, _verify and the four writes
--   Spoke/HubHttp   spoke/hub_http.py: _NoRedirect, _request and the calls of the hub
--   Spoke/Call      calls of the world and of the clock
--   Json/Access     Python's access to JSON values, which may raise
--   Exec            code with a state and exceptions, and rules for its invariants and its end
--   Hub/Tests, Spoke/Tests, Spoke/Runs, and Tests below Hub/Api, Hub/Server, Spoke/Mirror, Spoke/Queue,
--                   Spoke/Local and Spoke/HubHttp: runs on concrete data; Hub/Sample and Spoke/Fake
--                   hold the data
--
-- How the code is represented:
--   * A call takes the ledger and returns a Result: a value with the new ledger, or the class of the
--     exception. Each method runs under one lock and in one transaction that an exception rolls back,
--     so a call is one atomic step, and a call that raises leaves the ledger as it was.
--   * Messages of exceptions are left out. Row ids are random uuids that are only compared: they are
--     numbers, and what a call draws from _new_id() and time.time() is an argument of it (Draws), named
--     by the statement that uses it. Time is a natural number, in any unit.
--   * That the id drawn for a delivery is not one of the table is a hypothesis (Fresh, DrawsFresh). An
--     id of a transfer, member, tenant or device that is taken makes the call fail, as the primary key
--     does. Ids of events are not checked.
--   * normalize stands for Python's handle.strip().lower(), and hash for the sha256 of a token.
--   * A column that json.dumps writes holds the value itself. Foreign keys are checked where a row is
--     inserted with a key that the call has not read itself.
--   * ORDER BY created_at is a stable sort. A limit below zero counts as zero.
--   * The loops are over lists, by structural recursion, but for the wait of _correlate, whose rounds are
--     bounded by fuel; a round sleeps for the interval at least, so with an interval of one or more, fuel
--     for one round more than the timeout is enough. A loop without fuel left is unfinished, an outcome of
--     its own that no except clause catches.
--   * The outbound phase takes the reader's candidates, the hub and Python's str.lower as arguments.
--     Its hub answers a push with the id of the transfer, or raises. Logging is left out.
--   * A tick works on the spoke's tables and on a world of which nothing is known but that its calls
--     return or raise. Texts of the spoke's own exceptions are settings. A title that is no text counts
--     as missing.
--   * The reader's queries are functions of the tables; a row that the code has read before on the same
--     connection is there. The order of rows without ORDER BY is that of the table. SQLite's lower() and
--     Python's str.lower are two arguments.
--   * The loops `while time.time() < deadline` of the writers are one combinator (Exec/Until) with fuel for
--     their rounds. As each round sleeps, one round more than the time allowed is enough. Both clocks and
--     sleeps belong to the world, as do urlopen, the commands of macOS, the token and the reader.
--   * A handler of hub/api.py takes the ledger, and returns or raises with the ledger as it is then. Row
--     ids on the wire are texts that the code only compares; row_of and text_of read and write them. A
--     field of a body that has another type than the column it goes to, which Python would pass on to
--     SQLite, and a negative rev have the reply unmodelled. The long poll has the calls of others in its
--     waits as an argument (Turn); it is waiting where that list ends before the poll does.
--   * The declaration of bootstrap is parsed before, and its keys are there; _credential is a function of the
--     name. Its log is left out.
--   * The two ends of HTTP are composed in Spoke/HubHttp/Served: the network hands the client's request to
--     the handler, with the path that urlparse finds, and its reply back.
--   * The loop of spoke/main.py is its rounds, for any number of them.
--   * Subprocesses of `open` end in one of four ways (Opened). json.dumps, quote and strip are settings.
--
-- Not modelled: wait_for_delivery, which blocks; the sockets of hub/api.py; the threads, the
-- environment and the gateway worker of hub/server.py; the connections and refresh of
-- spoke/things_db.py, which run commands of the system; the configuration of
-- spoke/main.py; logging; deploy/, tests/ and graphify-out/.
pub mod Base
pub mod Exec
pub mod Hub
pub mod Json
pub mod Spoke
