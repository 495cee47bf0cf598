-- ===== src/Rpc/Server/Faults.antt =====
-- What a server of burger/rpc/RpcServer.cc reads of a request, and requests that stop the process.
use native.Mathlib.Nat.{mod-eq_of_lt}
use burger.Common.{
  to_memory, from_memory, length-to_memory, from_memory-to_memory, ℕ, ◌+◌, ◌%◌, ◌^◌, ◌<◌, ◌≡◌, refl,
  sym, ap, ◌∙◌, true, none, some, List, ◌++◌, arith, length, take, drop, leb, length-append,
  take-append_self, drop-append_self, take-append, take-length, le→leb, lt→leb_false, append_assoc,
}
use burger.Rpc.Protobuf.{Header, Protobuf}
use burger.Rpc.Channel.{encode, bytes}
use burger.Rpc.Server.{
  find, ServiceInfo, Services, faults, read_header, read_args, header_size, with_args,
  handle_request,
}

drop-front : (n : ℕ) (xs ys : List ℕ) → length xs ≡ n → drop n (xs ++ ys) ≡ ys
drop-front n xs ys e = ap (λ k. drop k (xs ++ ys)) (sym e) ∙ drop-append_self xs ys

-- The bytes of a request.
abbrev pub request_text : List ℕ → List ℕ → List ℕ
request_text header args = to_memory 4 (length header) ++ header ++ args

abbrev pub header_of : List ℕ → List ℕ → List ℕ → Header
header_of service_name method_name args = record {
  service_name = service_name;
  method_name = method_name;
  args_size = length args % 2 ^ 32;
}

module _ (pb : Protobuf) (header args : List ℕ) (small : length header < 2 ^ 32) where
  abbrev text : List ℕ
  text = request_text header args

  take-text : take 4 text ≡ to_memory 4 (length header)
  take-text =
      let m = to_memory 4 (length header) in
      let l = length-to_memory 4 (length header) in
      take-append 4 (m ++ header) args (omega (arith, l, length-append m header))
      ∙ take-append 4 m header (omega (arith, l))
      ∙ take-length m 4 (omega (arith, l))

  header_size-text : header_size pb text ≡ length header
  header_size-text =
      ap from_memory take-text ∙ from_memory-to_memory 4 (length header) (omega arith)

  pub read_header-text : read_header pb text ≡ some header
  unfolding read_header
  read_header-text =
      let m = to_memory 4 (length header) in
      let l = length-to_memory 4 (length header) in
      let d : drop 4 text ≡ header ++ args =
        ap (drop 4) (append_assoc m header args) ∙ drop-front 4 m (header ++ args) l in
      let h : leb 4 (length text) ≡ true =
        le→leb 4 (length text)
          (omega (arith, l, length-append m header, length-append (m ++ header) args)) in
      rw (h, header_size-text, d, take-append_self header args) refl

  pub read_args-text :
      (n : ℕ) → n ≡ length args → read_args pb text (header_size pb text) n ≡ some args
  unfolding read_args
  read_args-text n e =
      let m = to_memory 4 (length header) in
      let l = length-to_memory 4 (length header) in
      let k = length-append m header in
      let d : drop (4 + length header) text ≡ args =
        drop-front (4 + length header) (m ++ header) args (omega (arith, k, l)) in
      let h : leb (4 + length header) (length text) ≡ true =
        le→leb (4 + length header) (length text)
          (omega (arith, l, k, length-append (m ++ header) args)) in
      rw (header_size-text, h, d, take-length args n (omega (arith, e))) refl

-- What `encode` makes of a request that can be serialized, and how far a server gets with it.
module _ (pb : Protobuf) (service_name method_name : List ℕ) (request : pb.Message)
    (args header : List ℕ) (serialized : pb.serialize request ≡ some args)
    (header_serialized : pb.serialize_header (header_of service_name method_name args)
      ≡ some header) where
  pub encode-bytes : encode pb service_name method_name request ≡ bytes (request_text header args)
  unfolding encode
  encode-bytes = rw (serialized, header_serialized) refl

  pub handle_request-with_args :
      (services : Services pb)
      → length args < 2 ^ 32
      → length header < 2 ^ 32
      → handle_request pb services (request_text header args)
        ≡ with_args pb services (header_of service_name method_name args) (some args)
  unfolding handle_request
  handle_request-with_args services h k =
      rw
        (
          read_header-text pb header args k,
          pb.parse_header-serialize_header (header_of service_name method_name args) header
              header_serialized,
          read_args-text pb header args k (length args % 2 ^ 32) (mod-eq_of_lt h),
        )
        refl

-- A request in due form for a method that a known service lacks is undefined behaviour or an
-- uncaught exception in the server, and so is any text of fewer than four bytes.
pub handle_request-faults :
    (pb : Protobuf) (services : Services pb) (info : ServiceInfo pb)
    (service_name method_name : List ℕ) (request : pb.Message) (args header short : List ℕ)
    → pb.serialize request ≡ some args
    → pb.serialize_header (header_of service_name method_name args) ≡ some header
    → length args < 2 ^ 32
    → length header < 2 ^ 32
    → find service_name services ≡ some info
    → find method_name info.methods ≡ none
    → length short < 4
    → (handle_request pb services (request_text header args) ≡ faults)
      × (handle_request pb services short ≡ faults)
unfolding handle_request read_header
handle_request-faults pb services info service_name method_name request args header short e f h k i
      j l =
    (
      handle_request-with_args pb service_name method_name request args header e f services h k
          ∙ rw (i, j) refl,
      rw (lt→leb_false 4 (length short) l) refl,
    )
