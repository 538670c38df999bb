-- ===== src/Stream/Batches/Bounds.antt =====
-- Reading a batch ends, with the errors within their limit.
use apm_server.Prelude.{
  ℕ, zero, suc, ◌≤◌, ◌<◌, ◌≡◌, ◌≢◌, ◌⊎◌, refl, sym, ap, subst, ◌∙◌, Option, none, some, true, false,
  List, Bytes, length, is_empty, arith, Bool-cases, Option-cases, inl, inr,
}
use apm_server.Model.Event.{ApmEvent}
use apm_server.Decoder.LineReader.{
  ReadError, eof, err_buffer_full, err_line_too_long, other_error, LineReader, read_line, is_eof,
}
use apm_server.Decoder.LineReader.Returns.{read_line-Returns}
use apm_server.Decoder.Ndjson.{Json, NdjsonStreamDecoder, read_ahead}
use apm_server.Stream.Results.{StreamError, end_of_stream, limited_add-length, errors_limit}
use apm_server.Stream.EventType.{identify_event_type}
use apm_server.Stream.Batches.{
  EventType, EventError, event_eof, event_error, EventDecoders, Reading, event_type_of,
  after_decoding, decode_body, read_event, read_batch, type_name,
}

module _ {F : Type 0} (json : Json) (decoders : EventDecoders F json) where
  -- The buffer has room, and the reader ends with `io.EOF` or with an error that is not the buffer's or
  -- the line reader's.
  pub record Readable (lr : LineReader) : Type 0 where
    pub some_room : 0 < lr.br.size
    pub final : lr.br.final ≢ err_buffer_full
    pub foreign : lr.br.final ≢ err_line_too_long

  -- What the stream relies on: while the line that has been read ahead is not consumed, decoding an
  -- event reads no other line.
  pub record DecoderLaws : Type 0 where
    pub same_line_reader :
        (type : EventType) (reader : NdjsonStreamDecoder json) (base : ApmEvent F)
        (batch : List (ApmEvent F))
        → is_empty reader.latest_line_reader ≡ false
        → (decoders.decode_event type reader base batch).0.line_reader ≡ reader.line_reader
    pub same_is_eof :
        (type : EventType) (reader : NdjsonStreamDecoder json) (base : ApmEvent F)
        (batch : List (ApmEvent F))
        → is_empty reader.latest_line_reader ≡ false
        → (decoders.decode_event type reader base batch).0.is_eof ≡ reader.is_eof

  -- The state of a batch between two lines.
  pub record Valid (s : Reading json decoders) : Type 0 where
    pub readable : Readable s.reader.line_reader
    pub limited : length s.result.0.errors ≤ errors_limit

  after_decoding-Valid :
      (s : Reading json decoders) (err : Option EventError)
      → Valid s
      → Valid (after_decoding json decoders s err)
  unfolding after_decoding
  after_decoding-Valid s none v = v
  after_decoding-Valid s (some event_eof) v = v
  after_decoding-Valid s (some (event_error message)) v = record {
    readable = v.readable;
    limited = limited_add-length s.result _ v.limited;
  }

  module _ (laws : DecoderLaws) where
    decode_body-Valid :
        (s : Reading json decoders) (base : ApmEvent F) (body : Bytes)
        → is_empty s.reader.latest_line_reader ≡ false
        → Valid s
        → Valid (decode_body json decoders s base body)
    unfolding decode_body
    decode_body-Valid s base body ahead v =
        elim (Option-cases (event_type_of (type_name (identify_event_type body)))) [
          | inl unknown ↦
              rw (unknown, decode_body)
                (record {
                  readable = v.readable;
                  limited = limited_add-length s.result _ v.limited;
                })
          | inr (type, known) ↦
              let (reader, batch, err) = decoders.decode_event type s.reader base s.batch in
              let same = laws.same_line_reader type s.reader base s.batch ahead in
              rw (known, decode_body)
                (after_decoding-Valid (record s { reader = reader; batch = batch }) err
                  (record { readable = subst Readable (sym same) v.readable; limited = v.limited }))
        ]

    read_event-Valid :
        (s : Reading json decoders) (base : ApmEvent F) (body : Bytes) (err : Option ReadError)
        → s.reader.latest_line_reader ≡ body
        → Valid s
        → Valid (read_event json decoders s base body err).0
    unfolding read_event
    read_event-Valid s base body (some (other_error message)) ahead v = v
    read_event-Valid s base body (some err_buffer_full) ahead v = v
    read_event-Valid s base body (some err_line_too_long) ahead v = record {
      readable = v.readable;
      limited = limited_add-length s.result _ v.limited;
    }
    read_event-Valid s base body (some eof) ahead v = elim (Bool-cases (is_empty body)) [
      | inl blank ↦ rw (blank, read_event) v
      | inr event ↦
          rw (event, read_event) (decode_body-Valid s base body (ap is_empty ahead ∙ event) v)
    ]
    read_event-Valid s base body none ahead v = elim (Bool-cases (is_empty body)) [
      | inl blank ↦ rw (blank, read_event) v
      | inr event ↦
          rw (event, read_event) (decode_body-Valid s base body (ap is_empty ahead ∙ event) v)
    ]

    abbrev SameReader : Reading json decoders → Reading json decoders → Type 0
    SameReader s s' =
        (s'.reader.line_reader ≡ s.reader.line_reader) × (s'.reader.is_eof ≡ s.reader.is_eof)

    after_decoding-same :
        (s : Reading json decoders) (err : Option EventError)
        → SameReader s (after_decoding json decoders s err)
    unfolding after_decoding
    after_decoding-same s none = (refl, refl)
    after_decoding-same s (some event_eof) = (refl, refl)
    after_decoding-same s (some (event_error message)) = (refl, refl)

    decode_body-same :
        (s : Reading json decoders) (base : ApmEvent F) (body : Bytes)
        → is_empty s.reader.latest_line_reader ≡ false
        → SameReader s (decode_body json decoders s base body)
    unfolding decode_body
    decode_body-same s base body ahead =
        elim (Option-cases (event_type_of (type_name (identify_event_type body)))) [
          | inl unknown ↦ rw (unknown, decode_body) (refl, refl)
          | inr (type, known) ↦
              let (reader, batch, err) = decoders.decode_event type s.reader base s.batch in
              let (lines, ended) =
                after_decoding-same (record s { reader = reader; batch = batch }) err in
              rw (known, decode_body)
                (
                  lines ∙ laws.same_line_reader type s.reader base s.batch ahead,
                  ended ∙ laws.same_is_eof type s.reader base s.batch ahead,
                )
        ]

    read_event-same :
        (s : Reading json decoders) (base : ApmEvent F) (body : Bytes) (err : Option ReadError)
        → s.reader.latest_line_reader ≡ body
        → SameReader s (read_event json decoders s base body err).0
    unfolding read_event
    read_event-same s base body (some (other_error message)) ahead = (refl, refl)
    read_event-same s base body (some err_buffer_full) ahead = (refl, refl)
    read_event-same s base body (some err_line_too_long) ahead = (refl, refl)
    read_event-same s base body (some eof) ahead = elim (Bool-cases (is_empty body)) [
      | inl blank ↦ rw (blank, read_event) (refl, refl)
      | inr event ↦
          rw (event, read_event) (decode_body-same s base body (ap is_empty ahead ∙ event))
    ]
    read_event-same s base body none ahead = elim (Bool-cases (is_empty body)) [
      | inl blank ↦ rw (blank, read_event) (refl, refl)
      | inr event ↦
          rw (event, read_event) (decode_body-same s base body (ap is_empty ahead ∙ event))
    ]

    -- The reader's own error is `io.EOF`, or it ends the batch.
    own_error :
        (s : Reading json decoders) (base : ApmEvent F) (body : Bytes) (err : Option ReadError)
        (e : ReadError)
        → e ≢ err_buffer_full
        → e ≢ err_line_too_long
        → err ≡ some e
        → (is_eof err ≡ true) ⊎ ((read_event json decoders s base body err).1 ≢ none)
    unfolding read_event
    own_error s base body none e full long h = cc
    own_error s base body (some eof) e full long h = inl refl
    own_error s base body (some (other_error message)) e full long h = inr (λ x. cc)
    own_error s base body (some err_buffer_full) e full long h =
        let same : err_buffer_full ≡ e = cc in absurd (full (sym same))
    own_error s base body (some err_line_too_long) e full long h =
        let same : err_line_too_long ≡ e = cc in absurd (long (sym same))

    abbrev unread : Reading json decoders → ℕ
    unread s = length s.reader.line_reader.br.rest

    -- A batch of at least one line ends the stream, or takes bytes away from it.
    abbrev Moved : ℕ → Reading json decoders → Reading json decoders → Option StreamError → Type 0
    Moved zero s s' err = (err ≢ none) ⊎ (unread s' ≤ unread s)
    Moved (suc n) s s' err = (err ≢ none) ⊎ (unread s' < unread s)

    Moved-on :
        (n : ℕ) (s s2 s' : Reading json decoders) (err : Option StreamError)
        → Moved n s2 s' err
        → unread s2 < unread s
        → Moved (suc n) s s' err
    Moved-on zero s s2 s' err (inl ended) less = inl ended
    Moved-on zero s s2 s' err (inr moved) less = inr (omega (arith, moved, less))
    Moved-on (suc n) s s2 s' err (inl ended) less = inl ended
    Moved-on (suc n) s s2 s' err (inr moved) less = inr (omega (arith, moved, less))

    read_batch-eof :
        (n : ℕ) (base : ApmEvent F) (s : Reading json decoders)
        → s.reader.is_eof ≡ true
        → read_batch json decoders n base s ≡ some (s, some end_of_stream)
    unfolding read_batch
    read_batch-eof zero base s e = simp (e, read_batch) refl
    read_batch-eof (suc n) base s e = simp (e, read_batch) refl

    abbrev with_line :
        NdjsonStreamDecoder json → LineReader → Bytes → Option ReadError → NdjsonStreamDecoder json
    with_line reader lr line err = record reader {
      line_reader = lr;
      latest_line = line;
      latest_line_reader = line;
      latest_error = err;
      is_eof = is_eof err;
    }

    abbrev on_stop :
        ℕ
        → ApmEvent F
        → Reading json decoders
        → Option StreamError
        → Option (Reading json decoders × Option StreamError)
    on_stop n base s2 stop = elim stop [
      | none ↦ read_batch json decoders n base s2
      | some e ↦ some (s2, some e)
    ]

    read_one :
        (n : ℕ) (base : ApmEvent F) (s s2 : Reading json decoders) (lr : LineReader) (line : Bytes)
        (err : Option ReadError) (stop : Option StreamError)
        → s.reader.is_eof ≡ false
        → read_line s.reader.line_reader ≡ some (lr, line, err)
        → read_event json decoders
            (record s { reader = with_line s.reader lr line err })
            base
            line
            err
          ≡ (s2, stop)
        → read_batch json decoders (suc n) base s ≡ on_stop n base s2 stop
    unfolding read_batch read_ahead
    read_one n base s s2 lr line err stop more e f =
        simp (more, e, read_batch) (ap (λ r. on_stop n base r.0 r.1) f)

    -- Reading a batch always returns, from a stream whose buffer has room and whose reader ends with
    -- `io.EOF` or an error of its own, if decoding an event reads only the line read ahead. At most five errors are
    -- kept, if there are no more before. A batch of at least one line ends the stream or takes bytes from it.
    pub read_batch-Valid :
        (n : ℕ) (base : ApmEvent F) (s : Reading json decoders)
        → Valid s
        → (s' : Reading json decoders) × (err : Option StreamError) × (read_batch json decoders n
              base s
            ≡ some (s', err))
          × Valid s'
          × Moved n s s' err
    unfolding read_batch
    read_batch-Valid zero base s v = (s, _, refl, v, inr (omega arith))
    read_batch-Valid (suc n) base s v = elim (Bool-cases s.reader.is_eof) [
      | inl ended ↦ (s, some end_of_stream, rw (ended, read_batch) refl, v, inl (λ x. cc))
      | inr more ↦
          let (lr, line, err, e, size, final, progress) =
            read_line-Returns s.reader.line_reader v.readable.some_room v.readable.final in
          let v1 : Valid (record s { reader = with_line s.reader lr line err }) = record {
            readable = record {
              some_room = omega (arith, size, v.readable.some_room);
              final = λ x. v.readable.final (sym final ∙ x);
              foreign = λ x. v.readable.foreign (sym final ∙ x);
            };
            limited = v.limited;
          } in
          let s1 = record s { reader = with_line s.reader lr line err } in
          let (s2, stop) = read_event json decoders s1 base line err in
          let v2 : Valid s2 = read_event-Valid s1 base line err refl v1 in
          let one = read_one n base s s2 lr line err stop more e refl in
          let (lines, flag) = read_event-same s1 base line err refl in
          elim (Option-cases stop) [
            | inr (stopped, f) ↦
                (s2, some stopped, one ∙ ap (on_stop n base s2) f, v2, inl (λ x. cc))
            | inl f ↦
                let (s3, err3, rest, v3, moved) = read_batch-Valid n base s2 v2 in
                (
                  s3,
                  err3,
                  one ∙ ap (on_stop n base s2) f ∙ rest,
                  v3,
                  elim progress [
                    | inl smaller ↦
                        Moved-on n s s2 s3 err3 moved
                          (omega (arith, ap (λ l. length l.br.rest) lines, smaller))
                    | inr own ↦
                        elim (own_error s1 base line err s.reader.line_reader.br.final
                          v.readable.final v.readable.foreign own) [
                            | inr stops ↦ absurd (stops f)
                            | inl at_end ↦
                                let last = read_batch-eof n base s2 (flag ∙ at_end) in
                                inl (λ x. let both = sym rest ∙ last in cc)
                          ]
                  ],
                )
          ]
    ]
