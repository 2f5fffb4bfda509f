-- ===== src/Tftp/Waiting.antt =====
-- What `sendfile` and a client that takes the blocks in order have between them in the wait.
use mathlib.Core.Path.{subst}
use baseliner_docker.Base.{
  ℕ, ◌+◌, ◌%◌, ◌^◌, ◌≤◌, ◌<◌, List, [], ◌∷◌, ◌++◌, Bool, true, false, ◌≡◌, refl, ap, sym, ◌∙◌,
  arith, length, ◌==◌, if◌then◌else◌, append_assoc, ℤ, pos, eqb_ℤ, ltb_ℤ,
}
use baseliner_docker.Tftp.Buffers.{bf, segsize, readit, read_ahead}
use baseliner_docker.Tftp.Ahead.{wire, unread, Holds, Opened, Loaded, read_ahead-Opened}
use baseliner_docker.Tftp.ReadAhead.{Gives, read_ahead-Loaded}
use baseliner_docker.Tftp.Sender.{
  Packet, Status, waiting, finished, aborted, quit, Sender, send_data, next_block,
}

-- A client that expects block `k` takes a packet with that number, and drops any other.
abbrev take_packet : ℕ × List ℕ → Packet → ℕ × List ℕ
take_packet (k, got) p = if p.block == k % 2 ^ 16 then (k + 1, got ++ p.bytes) else (k, got)

abbrev receive : ℕ × List ℕ → List Packet → ℕ × List ℕ
receive st [] = st
receive st (p ∷ r) = receive (take_packet st p) r

receive-append :
    (st : ℕ × List ℕ) (ps : List Packet) (p : Packet)
    → receive st (ps ++ (p ∷ [])) ≡ take_packet (receive st ps) p
receive-append st [] p = refl
receive-append st (q ∷ ps) p = receive-append (take_packet st q) ps p

abbrev pub received : List Packet → ℕ × List ℕ
received ps = receive (1, []) ps

-- The bytes that the client has, with what is still to be sent.
abbrev pub Remains : Bool → List ℕ → Sender → ℕ → List ℕ → Type 0
Remains convert text s k todo =
    (got : List ℕ) × (received s.sent ≡ (k, got)) × (got ++ todo ≡ wire convert text)

-- In the wait: the current block is sent and counted, the next one is loaded.
pub record Waits (convert : Bool) (text : List ℕ) (s : Sender) : Type 0 where
  pub todo : List ℕ
  pub holds : Holds (bf s.bfs.current s.bfs) todo
  pub sized : s.size ≡ (bf s.bfs.current s.bfs).counter
  pub loaded : Loaded convert todo s.bfs s.file
  pub log : Remains convert text s (s.block + 1) todo

-- Before the first `send` of a block.
pub record Starts (convert : Bool) (text : List ℕ) (s : Sender) : Type 0 where
  pub todo : List ℕ
  pub holds : Holds (bf s.bfs.current s.bfs) todo
  pub sized : s.size ≡ (bf s.bfs.current s.bfs).counter
  pub opened : Opened convert todo s.bfs s.file
  pub log : Remains convert text s s.block ((bf s.bfs.current s.bfs).bytes ++ todo)

abbrev pub Part : Bool → List ℕ → Sender → Type 0
Part convert text s = (rest : List ℕ) × ((received s.sent).1 ++ rest ≡ wire convert text)

abbrev pub GoodAt : Bool → List ℕ → Sender → Status → Type 0
GoodAt convert text s waiting = Waits convert text s
GoodAt convert text s finished = (received s.sent).1 ≡ wire convert text
GoodAt convert text s aborted = Part convert text s
GoodAt convert text s quit = Part convert text s

abbrev pub Good : Bool → List ℕ → Sender → Type 0
Good convert text s = GoodAt convert text s s.status

take_packet-new :
    (k : ℕ) (got bytes : List ℕ) (c : Bool)
    → take_packet (k, got) (record { block = k % 2 ^ 16; bytes = bytes; confirm = c })
      ≡ (k + 1, got ++ bytes)
take_packet-new k got bytes c = ground arith

take_packet-old :
    (k : ℕ) (got bytes : List ℕ) (c : Bool)
    → take_packet (k + 1, got) (record { block = k % 2 ^ 16; bytes = bytes; confirm = c })
      ≡ (k + 1, got)
take_packet-old k got bytes c = ground arith

pub Part-of :
    (convert : Bool) (text : List ℕ) (s : Sender) (k : ℕ) (todo : List ℕ)
    → Remains convert text s k todo
    → Part convert text s
Part-of convert text s k todo (got, e, w) = (todo, ap (λ t. t.1 ++ todo) e ∙ w)

pub logged :
    (ps : List Packet) (k : ℕ) (got bytes : List ℕ) (c : Bool)
    → received ps ≡ (k, got)
    → received (ps ++ (record { block = k % 2 ^ 16; bytes = bytes; confirm = c } ∷ []))
      ≡ (k + 1, got ++ bytes)
logged ps k got bytes c h =
    receive-append (1, []) ps (record { block = k % 2 ^ 16; bytes = bytes; confirm = c })
    ∙ ap (λ st. take_packet st (record { block = k % 2 ^ 16; bytes = bytes; confirm = c })) h
    ∙ take_packet-new k got bytes c

repeated :
    (ps : List Packet) (k : ℕ) (got bytes : List ℕ) (c : Bool)
    → received ps ≡ (k + 1, got)
    → received (ps ++ (record { block = k % 2 ^ 16; bytes = bytes; confirm = c } ∷ []))
      ≡ (k + 1, got)
repeated ps k got bytes c h =
    receive-append (1, []) ps (record { block = k % 2 ^ 16; bytes = bytes; confirm = c })
    ∙ ap (λ st. take_packet st (record { block = k % 2 ^ 16; bytes = bytes; confirm = c })) h
    ∙ take_packet-old k got bytes c

unfoldable pub send_data-Waits_new :
    (convert : Bool) (text : List ℕ) (s : Sender)
    → Starts convert text s
    → Waits convert text (send_data convert true s)
unfolding send_data
send_data-Waits_new convert text s h =
    let a = read_ahead-Opened convert h.todo s.bfs s.file h.opened in
    let same : bf (read_ahead convert s.bfs s.file).0.current (read_ahead convert s.bfs s.file).0
        ≡ bf s.bfs.current s.bfs =
      ap (λ c. bf c (read_ahead convert s.bfs s.file).0) a.1 ∙ a.2 in
    let bytes = (bf s.bfs.current s.bfs).bytes in
    record {
      todo = h.todo;
      holds = subst (λ b. Holds b h.todo) (sym same) h.holds;
      sized = h.sized ∙ sym (ap (λ b. b.counter) same);
      loaded = a.0;
      log = (
        h.log.0 ++ bytes,
        logged s.sent s.block h.log.0 bytes s.confirmed h.log.1,
        append_assoc h.log.0 bytes h.todo ∙ h.log.2,
      );
    }

send_data-Starts :
    (convert ok : Bool) (text : List ℕ) (s : Sender)
    → Starts convert text s
    → Good convert text (send_data convert ok s)
unfolding send_data
send_data-Starts convert false text s h = Part-of convert text s s.block _ h.log
send_data-Starts convert true text s h = send_data-Waits_new convert text s h

pub send_data-Waits :
    (convert ok : Bool) (text : List ℕ) (s : Sender)
    → Waits convert text s
    → Good convert text (send_data convert ok s)
unfolding send_data
send_data-Waits convert false text s h = Part-of convert text s _ _ h.log
send_data-Waits convert true text s h =
    let bytes = (bf s.bfs.current s.bfs).bytes in
    rw
      (read_ahead-Loaded convert h.todo s.bfs s.file h.loaded (sym h.loaded.turn) (length bytes)
        (ap (λ c. (bf c s.bfs).counter) h.loaded.turn ∙ h.holds.counted))
      (record {
        todo = h.todo;
        holds = h.holds;
        sized = h.sized;
        loaded = h.loaded;
        log = (h.log.0, repeated s.sent s.block h.log.0 bytes s.confirmed h.log.1, h.log.2);
      })

pub nonneg : (n : ℤ) (k : ℕ) → n ≡ pos k → ltb_ℤ n (pos 0) ≡ false
nonneg n k h = rw h (ground arith)

-- A block that `readit` hands out can be sent.
pub next_block-Given :
    (convert ok : Bool) (text todo : List ℕ) (s : Sender)
    → (let (n, b, f) = readit convert s.bfs s.file in Gives convert todo n b f)
    → Remains convert text s s.block todo
    → Good convert text (next_block convert ok s)
unfolding next_block
next_block-Given convert ok text todo s g l = rw (nonneg _ _ (g.count ∙ g.holds.counted)) (
    send_data-Starts convert ok text _ (record {
      todo = unread convert (readit convert s.bfs s.file).1 (readit convert s.bfs s.file).2;
      holds = g.holds;
      sized = g.count;
      opened = g.opened;
      log = (l.0, l.1, ap (λ t. l.0 ++ t) g.rest ∙ l.2);
    }))

pub short_size :
    (n : ℤ) (k : ℕ) → n ≡ pos k → k ≤ segsize → eqb_ℤ n (pos segsize) ≡ false → k < segsize
short_size n k e b h = ground arith
