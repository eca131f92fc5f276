-- ===== src/Upload/Groups.antt =====
-- How the instructions of an upload are spread over its transactions.
use flux_sdk_go.Common.{
  ℕ, zero, suc, ◌+◌, ◌-◌, ◌^◌, ◌<◌, ◌≡◌, ◌≢◌, refl, sym, ap, ◌∙◌, inl, inr, some, List, [], ◌∷◌,
  ◌++◌, map, Result, ok, err, panic, ◌>>=◌, >>=-eq-ok, or_err, or_err-eq-ok, Bytes, length,
  length-append, All, Bool-cases, arith, ltb, ◌==◌,
}
use mathlib.Core.List.{append_assoc, append-nil}
use flux_sdk_go.Svm.Validate.{MsgTransaction}
use flux_sdk_go.Svm.Convert.{Solana}
use flux_sdk_go.Upload.{
  WriteBuffer, build_failed, stuck, Error, no_program_address, SolanaInstruction, Uploader,
  chunk_end, chunk_write, write_instruction, deploy_instruction, build_msg, upload_loop,
  create_program_upload_msgs, instructions_per_tx,
}
use flux_sdk_go.Upload.Chunks.{writes, chunk_end-between, apply_writes, apply_writes_lem}

module _ (sol : Solana) (up : Uploader sol) where
  -- Each message is built from its group of instructions.
  abbrev pub AreBuilt : List (List (SolanaInstruction sol)) → List MsgTransaction → Type 0
  AreBuilt [] [] = Unit {0}
  AreBuilt (g ∷ gs) (m ∷ ms) = (build_msg sol up g ≡ ok m) × AreBuilt gs ms
  AreBuilt _ _ = ⊥

  abbrev pub joined : List (List (SolanaInstruction sol)) → List (SolanaInstruction sol)
  joined [] = []
  joined (g ∷ gs) = g ++ joined gs

  -- What a run of the loop makes of the builder `before` and the messages `res`: full groups of
  -- instructions, and those that are left in the builder.
  pub record Groups (res out : List MsgTransaction)
      (before left instrs : List (SolanaInstruction sol)) : Type 0 where
    pub groups : List (List (SolanaInstruction sol))
    pub msgs : List MsgTransaction
    pub appended : out ≡ res ++ msgs
    pub built : AreBuilt groups msgs
    pub full : All (λ g. length g ≡ instructions_per_tx) groups
    pub in_order : joined groups ++ left ≡ before ++ instrs
    pub room : length left < instructions_per_tx

  upload_loop-Groups :
      (fuel : ℕ) (program : Bytes) (idx : ℕ) (builder : List (SolanaInstruction sol)) (count : ℕ)
      (res : List MsgTransaction) (left : List (SolanaInstruction sol)) (out : List MsgTransaction)
      → count ≡ length builder
      → count < instructions_per_tx
      → upload_loop sol up fuel program idx builder count res ≡ ok (left, out)
      → Groups res out builder left (map (write_instruction sol up) (writes fuel program idx))
  unfolding upload_loop writes
  upload_loop-Groups zero program idx builder count res left out n lt e = cc
  upload_loop-Groups (suc fuel) program idx builder count res left out n lt e =
      let next = chunk_end (length program) idx in
      let ix = write_instruction sol up (chunk_write program idx) in
      let added = builder ++ (ix ∷ []) in
      let longer = length-append {0} builder (ix ∷ []) in
      elim (Bool-cases (ltb idx (length program))) [
        | inr done ↦
            let same_left : builder ≡ left = ground arith in
            let same_out : res ≡ out = ground arith in
            rw (done, ← same_left, ← same_out)
              (record {
                groups = [];
                msgs = [];
                appended = sym (append-nil res);
                built = tt;
                full = tt;
                in_order = sym (append-nil builder);
                room = omega arith;
              })
        | inl below ↦ elim (Bool-cases (count + 1 == instructions_per_tx)) [
          | inl filled ↦
              let run : (build_msg sol up added >>= λ msg.
              upload_loop sol up fuel program next [] 0 (res ++ (msg ∷ [])))
                  ≡ ok (left, out) =
                ground arith in
              let (msg, built, later) = >>=-eq-ok (build_msg sol up added) _ run in
              let h =
                upload_loop-Groups fuel program next [] 0 (res ++ (msg ∷ [])) left out refl
                  (omega arith) later in
              rw below (record {
                groups = added ∷ h.groups;
                msgs = msg ∷ h.msgs;
                appended = h.appended ∙ append_assoc res (msg ∷ []) h.msgs;
                built = (built, h.built);
                full = (ground (arith, longer), h.full);
                in_order =
                    append_assoc added (joined h.groups) left
                    ∙ ap (λ r. added ++ r) h.in_order
                    ∙ append_assoc builder (ix ∷ [])
                        (map (write_instruction sol up) (writes fuel program next));
                room = h.room;
              })
          | inr open_still ↦
              let run : upload_loop sol up fuel program next added (count + 1) res
                  ≡ ok (left, out) =
                ground arith in
              let h =
                upload_loop-Groups fuel program next added (count + 1) res left out
                  (omega (arith, longer)) (ground arith) run in
              rw below (record {
                groups = h.groups;
                msgs = h.msgs;
                appended = h.appended;
                built = h.built;
                full = h.full;
                in_order =
                    h.in_order
                    ∙ append_assoc builder (ix ∷ [])
                        (map (write_instruction sol up) (writes fuel program next));
                room = h.room;
              })
        ]
      ]

-- What an upload is: writes that leave the program in the buffer account, in groups of 750 and a
-- last one of fewer, which the deployment follows.
pub record IsUpload (sol : Solana) (up : Uploader sol) (program : Bytes) (out : List MsgTransaction)
    : Type 0 where
  pub instrs : List WriteBuffer
  pub left : List (SolanaInstruction sol)
  pub executable : sol.PublicKey
  pub last : MsgTransaction
  pub firsts : List MsgTransaction
  pub split : Groups sol up [] firsts [] left (map (write_instruction sol up) instrs)
  pub address : up.find_program_address up.program ≡ some executable
  pub deployed :
      build_msg sol up (left ++ (deploy_instruction sol up (length program) executable ∷ []))
      ≡ ok last
  pub ends : out ≡ firsts ++ (last ∷ [])
  pub replays :
      (buffer : Bytes) → length buffer ≡ length program → apply_writes instrs buffer ≡ program

-- What CreateProgramUploadMsgs answers for a program below 4 GiB is an upload: its write instructions,
-- over all the transactions in order, put exactly the program into a buffer of its length; every transaction but
-- the last holds 750 of them, and the last holds fewer and ends with the deployment.
pub create_program_upload_msgs-IsUpload :
    (sol : Solana) (up : Uploader sol) (program : Bytes) (out : List MsgTransaction)
    → length program < 2 ^ 32
    → create_program_upload_msgs sol up program ≡ ok out
    → IsUpload sol up program out
unfolding create_program_upload_msgs
create_program_upload_msgs-IsUpload sol up program out small e =
    let ((left, firsts), looped, e₁) =
      >>=-eq-ok (upload_loop sol up (suc (length program)) program 0 [] 0 []) _ e in
    let (executable, address, e₂) =
      or_err-eq-ok (up.find_program_address up.program) no_program_address _ e₁ in
    let (last, deployed, e₃) =
      >>=-eq-ok
        (build_msg sol up (left ++ (deploy_instruction sol up (length program) executable ∷ []))) _
        e₂ in
    record {
      instrs = writes (suc (length program)) program 0;
      left = left;
      executable = executable;
      last = last;
      firsts = firsts;
      split =
          upload_loop-Groups sol up (suc (length program)) program 0 [] 0 [] left firsts refl
            (omega arith) looped;
      address = address;
      deployed = deployed;
      ends = ground arith;
      replays = λ buffer len. apply_writes_lem program buffer small len;
    }

>>=-ne-stuck :
    {A B : Type 0} (m : Result Error A) (k : A → Result Error B)
    → m ≢ err stuck
    → ((a : A) → k a ≢ err stuck)
    → (m >>= k) ≢ err stuck
>>=-ne-stuck (ok a) k n h = h a
>>=-ne-stuck (err x) k n h = λ e. n (ground arith)
>>=-ne-stuck panic k n h = λ e. cc

-- The loop of an upload comes to its end: `stuck`, which is no error of the code, is not answered.
module _ (sol : Solana) (up : Uploader sol) where
  build_msg-ne-stuck : (ixs : List (SolanaInstruction sol)) → build_msg sol up ixs ≢ err stuck
  unfolding build_msg
  build_msg-ne-stuck ixs =
      >>=-ne-stuck (or_err (up.build ixs) build_failed) _ (ground arith) (λ tx. ground arith)

  upload_loop-ne-stuck :
      (fuel : ℕ) (program : Bytes) (idx : ℕ) (builder : List (SolanaInstruction sol)) (count : ℕ)
      (res : List MsgTransaction)
      → length program - idx < fuel
      → upload_loop sol up fuel program idx builder count res ≢ err stuck
  unfolding upload_loop
  upload_loop-ne-stuck zero program idx builder count res lt = absurd (omega arith)
  upload_loop-ne-stuck (suc fuel) program idx builder count res lt =
      let next = chunk_end (length program) idx in
      let added = builder ++ (write_instruction sol up (chunk_write program idx) ∷ []) in
      elim (Bool-cases (ltb idx (length program))) [
        | inr done ↦ rw done (λ e. cc)
        | inl below ↦
            let (above, within, _) = chunk_end-between (length program) idx (ground arith) in
            elim (Bool-cases (count + 1 == instructions_per_tx)) [
              | inl filled ↦
                  rw (below, filled)
                    (>>=-ne-stuck (build_msg sol up added) _ (build_msg-ne-stuck added) (λ msg.
                      upload_loop-ne-stuck fuel program next [] 0 (res ++ (msg ∷ []))
                        (omega arith)))
              | inr open_still ↦
                  rw (below, open_still)
                    (upload_loop-ne-stuck fuel program next added (count + 1) res (omega arith))
            ]
      ]

  -- CreateProgramUploadMsgs comes to an end on every program: its loop does not run out of turns.
  pub create_program_upload_msgs-ne-stuck :
      (program : Bytes) → create_program_upload_msgs sol up program ≢ err stuck
  unfolding create_program_upload_msgs
  create_program_upload_msgs-ne-stuck program =
      >>=-ne-stuck (upload_loop sol up (suc (length program)) program 0 [] 0 []) _
        (upload_loop-ne-stuck (suc (length program)) program 0 [] 0 [] (omega arith))
        (λ p.
          >>=-ne-stuck (or_err (up.find_program_address up.program) no_program_address) _
            (ground arith)
            (λ executable.
              >>=-ne-stuck
                (build_msg sol up
                  (p.0 ++ (deploy_instruction sol up (length program) executable ∷ [])))
                _
                (build_msg-ne-stuck
                  (p.0 ++ (deploy_instruction sol up (length program) executable ∷ [])))
                (λ msg. λ e. cc)))
