-- ===== src/Tests/Restarts.antt =====
-- A client that goes on from a journal whose last record was cut short.
use longterm.Base.{◌≡◌, refl, sym, ap, true, false, none, some, List, [], ◌∷◌, ◌++◌, All, arith}
use longterm.Base.Words.{big_endian_from, Bytes, to_big_endian, from_big_endian}
use longterm.Base.Assoc.{find, insert, contains}
use longterm.Mosh.Client.{
  Client, Entry, address, seq_reserve, state_reserve, front, screen_state, latest_state, base,
  event,
}
use longterm.Mosh.Journal.{rewrite_journal}
use longterm.Mosh.Link.{Env, new_socket, add_socket}
use longterm.Mosh.Link.Nonce.{Rising, FreshNonces, reserved_by}
use longterm.Mosh.Sender.{of_keys}
use longterm.Mosh.Receiver.{steps_to, steps_loop}
use longterm.Mosh.Restart.Write.{letter, entry_data, event_data, record_bytes, journal_bytes}
use longterm.Mosh.Restart.Read.{
  read_record, read_address, read_number, read_event, put_event, change_event, event_change,
  read_state, read_records, read_journal, is_cut,
}
use longterm.Mosh.Restart.Entries.{IsEntry, take_entries}
use longterm.Mosh.Restart.Cut.{read_records-journal_bytes}
use longterm.Mosh.Restart.Resume.{Launch, first_screen, resume, resumed, set_journal, go_online}
use longterm.Mosh.Restart.Nonces.{resume-Rising}
use longterm.Mosh.Journal.{snapshot, renewed}
use longterm.Mosh.Restart.Restored.{IsRunning, carried, read_journal-snapshot}
use longterm.Tests.Sending.{outside, env, client, client-IsValid}
use longterm.Tests.Receiving.{fresh, fresh-IsReceiver}

-- What was written, and the start of a record that was not finished.
abbrev entries : List Entry
entries =
    address (2 ∷ 1 ∷ [])
    ∷ seq_reserve 65536
    ∷ state_reserve 65537
    ∷ front 1
    ∷ screen_state first_screen
    ∷ latest_state 0
    ∷ base 0
    ∷ event 0 (of_keys (104 ∷ []))
    ∷ []

abbrev unfinished : Bytes
unfinished = b'E' ∷ 0 ∷ 0 ∷ 0 ∷ 20 ∷ 7 ∷ []

-- The client that wrote them, after its fifth packet.
abbrev earlier_client : Client
earlier_client = record client {
  link = record client.link { next_seq = 5; outbox = (4, 1 ∷ []) ∷ [] };
  journal = record client.journal { file = some entries; seq_reserved = 65536 };
}

earlier_client-FreshNonces : FreshNonces earlier_client
earlier_client-FreshNonces = record {
  rising = (omega arith, omega arith);
  reserved = λ es e. (omega arith, ap reserved_by (sym e));
}

-- Another one, as it is constructed.
abbrev new_client : Client
new_client = record client {
  sender = record client.sender { events = []; event_base = 0; sent = [] };
}

abbrev online : Env
online = record env { new_fd = some 3 }

abbrev launch : Launch
launch = record { key_failure = none; opens = true; columns = 100; rows = 30 }

unfinished-is_cut : is_cut unfinished ≡ true
unfolding from_big_endian big_endian_from
unfinished-is_cut = refl

entries-IsEntry : All IsEntry entries
unfolding entry_data event_data to_big_endian
entries-IsEntry = ground arith

resumes :
    (resume outside online launch (some (journal_bytes entries ++ unfinished)) new_client).0 ≡ true
unfolding resume resumed set_journal go_online read_journal read_records read_record read_address
    read_number read_event put_event change_event event_change read_state to_big_endian
    from_big_endian big_endian_from steps_to steps_loop find insert contains rewrite_journal
    new_socket add_socket journal_bytes record_bytes entry_data event_data letter
resumes = refl

read_records-journal_bytes_example :
    read_records 1000
      (journal_bytes entries ++ unfinished)
      record { ok = true; have_address = false; client = new_client }
    ≡ take_entries entries record { ok = true; have_address = false; client = new_client }
read_records-journal_bytes_example =
    read_records-journal_bytes entries unfinished 1000
      record { ok = true; have_address = false; client = new_client } entries-IsEntry
      unfinished-is_cut
      (unfold journal_bytes record_bytes entry_data event_data to_big_endian in omega arith) refl

resume-Rising_example :
    Rising 0 earlier_client.outbox
      (resume outside online launch
        (some (journal_bytes entries ++ unfinished))
        new_client).1.next_seq
resume-Rising_example =
    resume-Rising outside online launch earlier_client new_client entries unfinished
      earlier_client-FreshNonces refl entries-IsEntry unfinished-is_cut refl resumes

-- A client with an address, three events and the server's first screen.
abbrev running : Client
running = record fresh { link = record fresh.link { remote = 2 ∷ 1 ∷ [] } }

running-IsRunning : IsRunning running
running-IsRunning = record {
  sends = client-IsValid;
  receives = record {
    rooted = fresh-IsReceiver.rooted;
    ordered = fresh-IsReceiver.ordered;
    there = fresh-IsReceiver.there;
    newest = fresh-IsReceiver.newest;
  };
  stays = refl;
  typed = ((((omega arith, omega arith, omega arith, omega arith), refl)), (refl, (refl, tt)));
}

running-IsEntry : All IsEntry (snapshot running (renewed running))
unfolding snapshot renewed entry_data event_data to_big_endian
running-IsEntry = ground arith

read_journal-snapshot_example :
    read_journal
      (some (journal_bytes (snapshot running (renewed running)) ++ unfinished))
      new_client
    ≡ (true, carried running (renewed running) new_client)
read_journal-snapshot_example =
    read_journal-snapshot running new_client unfinished running-IsRunning (omega arith)
      (omega arith) running-IsEntry unfinished-is_cut
      (unfold snapshot renewed journal_bytes record_bytes entry_data event_data to_big_endian in
        omega arith)
