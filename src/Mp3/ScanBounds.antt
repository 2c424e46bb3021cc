-- ===== src/Mp3/ScanBounds.antt =====
-- ScanMP3File on a file with contents returns, and keeps to its table of contents.
use foodie_note.Mp3.Ends.{Contents, Ends, Ends-mono, behind-Ends, if_Ends}
use foodie_note.Mp3.File.{
  PvFile, Error, success, error_unknown, end_of_file, crc_err, file_read_err, file_hdr_read_err,
  file_hdr_decode_err, error_unknown_object, insufficient_data, duration_present, seek_set,
}
use foodie_note.Mp3.Floats.{Floats}
use foodie_note.Mp3.Frame.{header_word, decode_word}
use foodie_note.Mp3.FrameLength.{IsInTables}
use foodie_note.Mp3.Header.{get_mp3_header}
use foodie_note.Mp3.Kept.{Ends-and, find_sync-Keeps}
use foodie_note.Mp3.Sample.{or_end}
use foodie_note.Mp3.Scan.{
  is_duration_known, on_end, fill_in, stop_scan, note_frame, read_raw, seek_playing, begin_scan,
  read_failed, find_or_stop, check_found, scan_sync, check_header, scan_frame, scan_frames,
  scan_from, scan_mp3_file,
}
use foodie_note.Mp3.State.{
  Mp3Parser, Exit, went, ended, overrun, running, Call, pure, end_with, seek, read_bytes, ◌>>=◌,
  ◌>>◌,
}
use foodie_note.Mp3.Sync.{find_sync}
use foodie_note.Mp3.SyncBlock.{Failed}
use foodie_note.Mp3.SyncFound.{FoundFrame, find_sync-Ends}
use foodie_note.Prelude.Int.{pos}
use foodie_note.Prelude.{
  ℕ, zero, suc, ◌+◌, ◌≤◌, ◌≡◌, refl, sym, subst, arith, not, Option, none, some, List, ◌==◌, ltb,
  length,
}
use foodie_note.Mp3.ScanTable.{
  Shape, RoomOf, view, Room, Room-Shape, Ended, fill_in-Shape, stop_scan-Shape,
}

on_end-Ends :
    {S A : Type 0} (Q : A → Mp3Parser S → Type 0) (D E : Error → Mp3Parser S → Type 0)
    (r : Exit A × Mp3Parser S) (k : Error → Call S A)
    → Ends Q D r
    → ((e : Error) (q : Mp3Parser S) → D e q → Ends Q E (k e q))
    → Ends Q E (on_end r k)
unfolding on_end
on_end-Ends Q D E (went a, q) k h next = h
on_end-Ends Q D E (ended e, q) k h next = next e q h
on_end-Ends Q D E (overrun, q) k h next = h
on_end-Ends Q D E (running, q) k h next = h

or_end-Room :
    {S : Type 0} (e : Error) (q : Mp3Parser S) → Room q → Ends (λ u r. Room r) Ended (or_end e q)
unfolding or_end
or_end-Room success q room = room
or_end-Room error_unknown q room = Room-Shape q room
or_end-Room end_of_file q room = Room-Shape q room
or_end-Room crc_err q room = Room-Shape q room
or_end-Room file_read_err q room = Room-Shape q room
or_end-Room file_hdr_read_err q room = Room-Shape q room
or_end-Room file_hdr_decode_err q room = Room-Shape q room
or_end-Room error_unknown_object q room = Room-Shape q room
or_end-Room insufficient_data q room = Room-Shape q room
or_end-Room duration_present q room = Room-Shape q room

module _ (f : PvFile) (c : Contents f) (n : Floats) where
  open f use {State, tell}
  open c use {bytes}

  -- A call behind which the table still has room.
  abbrev Kept : {A : Type 0} → A → Mp3Parser State → Type 0
  Kept a q = Room q

  read_failed-Ends :
      {A : Type 0} (Q : A → Mp3Parser State → Type 0) (audio_offset : ℕ) (p : Mp3Parser State)
      → Room p
      → Ends Q Ended (read_failed f n audio_offset p)
  unfolding read_failed
  read_failed-Ends Q audio_offset p room = behind-Ends Kept Q Ended _ _ room (λ u r room'.
      behind-Ends (λ u x. Shape x) Q Ended _ _ (fill_in-Shape n audio_offset 0 r room')
        (λ u x shape. shape))

  find_or_stop-Ends :
      (offset : ℕ) (p : Mp3Parser State) → Room p → Ends Kept Ended (find_or_stop f n offset p)
  unfolding find_or_stop
  find_or_stop-Ends offset p room =
      let m = p.init_search_file_size in
      let found =
        Ends-and view (view p) (FoundFrame f c (tell p.input)) Failed (find_sync f (suc m) offset p)
          (find_sync-Ends f c (tell p.input) m offset p (omega arith) refl)
          (find_sync-Keeps f view (λ q t. refl) (λ q l b i. refl) (suc m) offset p) in
      on_end-Ends Kept (λ e q. Failed e q × (view q ≡ view p)) Ended _ (stop_scan n offset)
        (Ends-mono (λ off q. FoundFrame f c (tell p.input) off q × (view q ≡ view p)) Kept
          (λ e q. Failed e q × (view q ≡ view p)) _ found
          (λ off q (frame, same). subst RoomOf (sym same) room))
        (λ e q (bad, same). stop_scan-Shape n Kept offset e q (subst RoomOf (sym same) room))

  check_found-Ends :
      (offset : ℕ) (o : Option (List ℕ)) (p : Mp3Parser State)
      → Room p
      → Ends Kept Ended (check_found f n offset o p)
  unfolding check_found
  check_found-Ends offset none p room = stop_scan-Shape n Kept offset insufficient_data p room
  check_found-Ends offset (some bs) p room =
      if_Ends Kept Ended (get_mp3_header (header_word bs)).1 (pure (offset, bs))
        (stop_scan n offset file_hdr_read_err) p (λ good. room)
        (λ bad. stop_scan-Shape n Kept offset file_hdr_read_err p room)

  scan_sync-Ends :
      (offset : ℕ) (p : Mp3Parser State) → Room p → Ends Kept Ended (scan_sync f n offset p)
  unfolding scan_sync seek_playing seek read_bytes
  scan_sync-Ends offset p room = behind-Ends Kept Kept Ended _ _ room (λ u q room'.
      behind-Ends Kept Kept Ended _ _ (find_or_stop-Ends offset q room') (λ off r room2.
        behind-Ends Kept Kept Ended _ _ room2 (λ e t room3.
          behind-Ends Kept Kept Ended _ _ (or_end-Room e t room3) (λ u w room4.
            behind-Ends Kept Kept Ended _ _ room4
              (λ o x room5. check_found-Ends (offset + off) o x room5)))))

  check_header-Ends :
      (audio_offset : ℕ) (bs : List ℕ) (p : Mp3Parser State)
      → Room p
      → Ends Kept Ended (check_header f n audio_offset bs p)
  unfolding check_header
  check_header-Ends audio_offset bs p room =
      if_Ends Kept Ended (not (length bs == 4)) (read_failed f n audio_offset) _ p
        (λ short. read_failed-Ends Kept audio_offset p room)
        (λ whole.
          if_Ends Kept Ended (get_mp3_header (header_word bs)).1 (pure (tell p.input, bs))
            (scan_sync f n (tell p.input)) p (λ good. room)
            (λ bad. scan_sync-Ends (tell p.input) p room))

  scan_frame-Ends :
      (audio_offset : ℕ) (p : Mp3Parser State)
      → Room p
      → Ends Kept Ended (scan_frame f n audio_offset p)
  unfolding scan_frame read_raw seek note_frame
  scan_frame-Ends audio_offset p room = behind-Ends Kept Kept Ended _ _ room (λ bs q room'.
      behind-Ends Kept Kept Ended _ _ (check_header-Ends audio_offset bs q room')
        (λ (offset, header) r room2.
          if_Ends Kept Ended (not (decode_word (header_word header)).1)
            (stop_scan n offset file_hdr_decode_err) _ r
            (λ undecoded. stop_scan-Shape n Kept offset file_hdr_decode_err r room2)
            (λ decoded. behind-Ends Kept Kept Ended _ _ room2 (λ e t room3.
              behind-Ends Kept Kept Ended _ _ room3
                (λ position w room4. behind-Ends Kept Kept Ended _ _ room4 (λ u x room5. room5))))))

  scan_frames-Ends :
      (audio_offset k dur : ℕ) (p : Mp3Parser State)
      → Room p
      → Ends Kept Ended (scan_frames f n audio_offset k dur p)
  unfolding scan_frames
  scan_frames-Ends audio_offset zero dur p room = room
  scan_frames-Ends audio_offset (suc k) dur p room =
      behind-Ends Kept Kept Ended _ _ (scan_frame-Ends audio_offset p room)
        (λ d q room'. scan_frames-Ends audio_offset k _ q room')

  -- A success, with a table in shape.
  abbrev pub Scanned : Error → Mp3Parser State → Type 0
  Scanned e q = (e ≡ success) × Shape q

  scan_from-Ends :
      (frames audio_offset : ℕ) (p : Mp3Parser State)
      → Room p
      → Ends Scanned Ended (scan_from f n frames audio_offset p)
  unfolding scan_from
  scan_from-Ends frames audio_offset p room = behind-Ends Kept Scanned Ended _ _ room (λ u q room'.
      behind-Ends Kept Scanned Ended _ _ (scan_frames-Ends audio_offset frames 0 q room')
        (λ dur r room2. behind-Ends Kept Scanned Ended _ _ room2 (λ ts t room3.
          behind-Ends (λ u x. Shape x) Scanned Ended _ _ (fill_in-Shape n audio_offset ts t room3)
            (λ u w shape.
              behind-Ends (λ u x. Shape x) Scanned Ended _ _ shape (λ u x same. (refl, same))))))

  begin_scan-Ends : (p : Mp3Parser State) → Room p → Ends Kept Ended (begin_scan f p)
  unfolding begin_scan seek
  begin_scan-Ends p room =
      if_Ends Kept Ended p.first_scan _ (pure p.last_scan_position) p
        (λ first.
          behind-Ends Kept Kept Ended _ _
            (behind-Ends Kept Kept Ended _ _
              (if_Ends Kept Ended (ltb 0 p.tag_size)
                (seek f (pos p.start_offset) seek_set >>= or_end) (pure tt) p
                (λ tagged.
                  behind-Ends Kept Kept Ended _ _ room (λ e q room'. or_end-Room e q room'))
                (λ untagged. room))
              (λ u q room'. room'))
            (λ u q room'. room'))
        (λ later. room)

  -- On a file with contents, with a table of 201 entries of which 200 at most are filled in, and with
  -- the fields of the first header subscripts of the tables: ScanMP3File returns for any number of
  -- frames. It writes nothing beyond the table, which keeps its 201 entries, and of which 200 at most
  -- are filled in as long as the scan is not complete, 201 at most when it is.
  pub scan_mp3_file-Ends :
      (frames : ℕ) (toc : List ℕ) (p : Mp3Parser State)
      → p.toc ≡ some toc
      → length toc ≡ 201
      → p.toc_filled_count ≤ 200
      → IsInTables p.header_info
      → Ends Scanned Ended (scan_mp3_file f n frames p)
  unfolding scan_mp3_file
  scan_mp3_file-Ends frames toc p held long few tables =
      let room : Room p = (toc, held, long, few, tables) in
      if_Ends Scanned Ended (is_duration_known p) (end_with duration_present) _ p
        (λ known. Room-Shape p room)
        (λ unknown.
          if_Ends Scanned Ended (p.toc_filled_count == 200) (fill_in n 0 0 >> pure success)
            (begin_scan f >>= scan_from f n frames) p
            (λ full.
              behind-Ends (λ u x. Shape x) Scanned Ended _ _ (fill_in-Shape n 0 0 p room)
                (λ u x shape. (refl, shape)))
            (λ free.
              behind-Ends Kept Scanned Ended _ _ (begin_scan-Ends p room)
                (λ audio_offset q room'. scan_from-Ends frames audio_offset q room')))
