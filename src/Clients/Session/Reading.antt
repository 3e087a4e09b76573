-- ===== src/Clients/Session/Reading.antt =====
-- The reading thread of a client, from its start to its end.
use my_arbitrager.Prelude.{
  suc, ◌+◌, ◌^◌, ◌<◌, ◌≡◌, refl, sym, ap, if-true, if-false, ◌∙◌, Bool, true, false, not, ◌&&◌,
  List, [], ◌∷◌, ◌++◌, append_assoc, append-nil, arith, map, length, if◌then◌else◌,
}
use my_arbitrager.Prelude.Bits.{add64}
use my_arbitrager.Prelude.Text.{Text}
use my_arbitrager.Market.{Ticker}
use my_arbitrager.Clients.Session.{
  Client, received, failed, thrown, Turn, on_read, do_read, run_client,
}

-- A turn that reads a message while no other thread disconnects.
abbrev pub calm : {C : Type 0} → C × Text → Turn C
calm (now, words) = record { stopped = false; outcome = received now words }

-- A turn whose read fails, with an error code or with an exception.
abbrev pub broken : {C : Type 0} → (with_code : Bool) → Turn C
broken with_code = record { stopped = false; outcome = if with_code then failed else thrown }

-- A turn that reads a message while another thread disconnects.
abbrev pub interrupted : {C : Type 0} → C × Text → Turn C
interrupted (now, words) = record { stopped = true; outcome = received now words }

module _ {C D : Type 0} (parse : C → Bool → Text → List (Ticker D)) where
  -- The tickers of all the messages.
  abbrev pub passed_on : Bool → List (C × Text) → List (Ticker D)
  passed_on has_callback [] = []
  passed_on has_callback ((now, words) ∷ ms) =
      parse now has_callback words ++ passed_on has_callback ms

  pub run_client-ends :
      (c : Client) (turns : List (Turn C))
      → (not c.should_stop && c.connected) ≡ false
      → run_client parse turns c ≡ ([], c)
  unfolding run_client
  run_client-ends c [] off = refl
  run_client-ends c (t ∷ turns) off = if-false _ _ off

  run_client-map :
      (c : Client) (ms : List (C × Text)) (turns : List (Turn C))
      → c.connected ≡ true
      → c.should_stop ≡ false
      → c.message_count + length ms < 2 ^ 64
      → let (ts, c') =
          run_client parse turns (record c { message_count = c.message_count + length ms }) in
        run_client parse (map calm ms ++ turns) c ≡ (passed_on c.has_callback ms ++ ts, c')
  unfolding run_client do_read on_read
  run_client-map c [] turns on going small =
      ap (λ n. run_client parse turns (record c { message_count = n })) (omega arith)
  run_client-map c ((now, words) ∷ ms) turns on going small =
      if-true {c = not c.should_stop && c.connected} _ _ (ground arith)
      ∙ ap (λ (r : List (Ticker D) × Client). (parse now c.has_callback words ++ r.0, r.1))
          (run_client-map (record c { message_count = add64 c.message_count 1 }) ms turns on going
            (omega arith))
      ∙ ap
          (λ n.
            let (ts, c') = run_client parse turns (record c { message_count = n }) in
            (parse now c.has_callback words ++ (passed_on c.has_callback ms ++ ts), c'))
          (omega arith)
      ∙ ap
          (λ (ts : List (Ticker D)). (
            ts,
            (run_client parse turns
                (record c { message_count = c.message_count + suc (length ms) })).1,
          ))
          (sym (append_assoc (parse now c.has_callback words) (passed_on c.has_callback ms) _))

  broken_turn :
      (c : Client) (with_code : Bool) (turns : List (Turn C))
      → c.connected ≡ true
      → c.should_stop ≡ false
      → run_client parse (broken with_code ∷ turns) c ≡ ([], record c { connected = false })
  unfolding run_client do_read
  broken_turn c true turns on going =
      if-true {c = not c.should_stop && c.connected} _ _ (ground arith)
      ∙ run_client-ends (record c { connected = false }) turns (ground arith)
  broken_turn c false turns on going =
      if-true {c = not c.should_stop && c.connected} _ _ (ground arith)
      ∙ run_client-ends (record c { connected = false }) turns (ground arith)

  interrupted_turn :
      (c : Client) (last : C × Text) (turns : List (Turn C))
      → c.connected ≡ true
      → c.should_stop ≡ false
      → c.message_count + 1 < 2 ^ 64
      → run_client parse (interrupted last ∷ turns) c ≡ (
        parse last.0 c.has_callback last.1 ++ [],
        record c { connected = false; should_stop = true; message_count = c.message_count + 1 },
      )
  unfolding run_client do_read on_read
  interrupted_turn c last turns on going small =
      if-true {c = not c.should_stop && c.connected} _ _ (ground arith)
      ∙ ap (λ (r : List (Ticker D) × Client). (parse last.0 c.has_callback last.1 ++ r.0, r.1))
          (run_client-ends
            (record c {
              connected = false;
              should_stop = true;
              message_count = add64 c.message_count 1;
            })
            turns refl)
      ∙ ap
          (λ n. (
            parse last.0 c.has_callback last.1 ++ [],
            record c { connected = false; should_stop = true; message_count = n },
          ))
          (omega arith)

  passed_on-append :
      (b : Bool) (ms : List (C × Text)) (m : C × Text)
      → passed_on b ms ++ (parse m.0 b m.1 ++ []) ≡ passed_on b (ms ++ m ∷ [])
  passed_on-append b [] m = refl
  passed_on-append b (n ∷ ms) m =
      append_assoc (parse n.0 b n.1) (passed_on b ms) _
      ∙ ap (λ ts. parse n.0 b n.1 ++ ts) (passed_on-append b ms m)

  pub run_client-broken :
      (c : Client) (ms : List (C × Text)) (with_code : Bool) (turns : List (Turn C))
      → c.connected ≡ true
      → c.should_stop ≡ false
      → c.message_count + length ms + 1 < 2 ^ 64
      → run_client parse (map calm ms ++ broken with_code ∷ turns) c ≡ (
        passed_on c.has_callback ms,
        record c { connected = false; message_count = c.message_count + length ms },
      )
  run_client-broken c ms with_code turns on going small =
      let counted : Client = record c { message_count = c.message_count + length ms } in
      run_client-map c ms (broken with_code ∷ turns) on going (omega arith)
      ∙ ap (λ (r : List (Ticker D) × Client). (passed_on c.has_callback ms ++ r.0, r.1))
          (broken_turn counted with_code turns on going)
      ∙ ap (λ (ts : List (Ticker D)). (ts, record counted { connected = false }))
          (append-nil (passed_on c.has_callback ms))

  -- The reading thread passes the tickers of every message on, in order, and counts each message,
  -- until a read fails, with an error code or an exception, or another thread disconnects; then it
  -- ends. A message that is being read when another thread disconnects is still passed on.
  pub run_client-until :
      (c : Client) (ms : List (C × Text)) (last : C × Text) (with_code : Bool)
      (turns : List (Turn C))
      → c.connected ≡ true
      → c.should_stop ≡ false
      → c.message_count + length ms + 1 < 2 ^ 64
      → (run_client parse (map calm ms ++ broken with_code ∷ turns) c ≡ (
        passed_on c.has_callback ms,
        record c { connected = false; message_count = c.message_count + length ms },
      ))
        × (run_client parse (map calm ms ++ interrupted last ∷ turns) c ≡ (
          passed_on c.has_callback (ms ++ last ∷ []),
          record c {
            connected = false;
            should_stop = true;
            message_count = c.message_count + length ms + 1;
          },
        ))
  run_client-until c ms last with_code turns on going small =
      let counted : Client = record c { message_count = c.message_count + length ms } in
      (
        run_client-broken c ms with_code turns on going small,
        run_client-map c ms (interrupted last ∷ turns) on going (omega arith)
            ∙ ap (λ (r : List (Ticker D) × Client). (passed_on c.has_callback ms ++ r.0, r.1))
                (interrupted_turn counted last turns on going small)
            ∙ ap
                (λ (ts : List (Ticker D)). (
                  ts,
                  record counted {
                    connected = false;
                    should_stop = true;
                    message_count = counted.message_count + 1;
                  },
                ))
                (passed_on-append c.has_callback ms last),
      )
