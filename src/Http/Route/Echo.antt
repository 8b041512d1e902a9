-- ===== src/Http/Route/Echo.antt =====
-- What `handle_echo` prints.
use orca_db.Base.{
  ◌+◌, ◌-◌, ◌<◌, ◌≡◌, sym, ap, ◌∙◌, List, [], ◌∷◌, ◌++◌, Bytes, length, length-append, take-all,
  le→ltb, Run, done, ◌>>=◌, bind_done, arith,
}
use mathlib.Core.List.{append_assoc, append-nil}
use orca_db.Handler.{Response, resp_buffer_size}
use orca_db.Http.Request.{Param, Request}
use orca_db.Http.Route.{Printed, print, echo_param, echo_loop, echo_params, handle_echo}

-- The text printed so far, none of it cut.
abbrev printed : Bytes → Printed
printed text = record { pos = length text; text = text }

print-printed :
    (text chunk : Bytes)
    → length text + length chunk < 32768
    → print chunk (printed text) ≡ done (printed (text ++ chunk))
unfolding print
print-printed text chunk h = rw (le→ltb resp_buffer_size (length text) (omega arith)) (
    rw (take-all (resp_buffer_size - length text - 1) chunk (omega (arith, h)))
      (ap (λ n. done (record { pos = n; text = text ++ chunk })) (sym (length-append text chunk))))

-- The parameters behind the first, each behind a comma.
abbrev pub echo_rest : Bytes → List Param → Bytes
echo_rest buf [] = []
echo_rest buf (p ∷ params) = 44 ∷ (echo_param buf p ++ echo_rest buf params)

-- The parameters as the members of an object.
abbrev pub echo_members : Bytes → List Param → Bytes
echo_members buf [] = []
echo_members buf (p ∷ params) = echo_param buf p ++ echo_rest buf params

echo_loop-printed :
    (buf text : Bytes) (params : List Param)
    → length text + length (echo_rest buf params) < 32768
    → echo_loop buf params (printed text) ≡ done (printed (text ++ echo_rest buf params))
unfolding echo_loop
echo_loop-printed buf text [] h = ap (λ t. done (printed t)) (sym (append-nil text))
echo_loop-printed buf text (p ∷ params) h =
    let comma = text ++ (44 ∷ []) in
    let member = echo_param buf p in
    let n = length-append member (echo_rest buf params) in
    let m = length-append text (44 ∷ []) in
    bind_done (print (44 ∷ []) (printed text)) (printed comma)
      (λ w. print member w >>= echo_loop buf params)
      (print-printed text (44 ∷ []) (omega (arith, h)))
    ∙ bind_done (print member (printed comma)) (printed (comma ++ member)) (echo_loop buf params)
        (print-printed comma member (omega (arith, h, n, m)))
    ∙ echo_loop-printed buf (comma ++ member) params
        (omega (arith, h, n, m, length-append comma member))
    ∙ ap (λ t. done (printed t))
        (append_assoc comma member (echo_rest buf params)
          ∙ append_assoc text (44 ∷ []) (member ++ echo_rest buf params))

echo_params-printed :
    (buf text : Bytes) (params : List Param)
    → length text + length (echo_members buf params) < 32768
    → echo_params buf params (printed text) ≡ done (printed (text ++ echo_members buf params))
unfolding echo_params
echo_params-printed buf text [] h = ap (λ t. done (printed t)) (sym (append-nil text))
echo_params-printed buf text (p ∷ params) h =
    let member = echo_param buf p in
    let n = length-append member (echo_rest buf params) in
    bind_done (print member (printed text)) (printed (text ++ member)) (echo_loop buf params)
      (print-printed text member (omega (arith, h, n)))
    ∙ echo_loop-printed buf (text ++ member) params (omega (arith, h, n, length-append text member))
    ∙ ap (λ t. done (printed t)) (append_assoc text member (echo_rest buf params))

-- While the whole text is shorter than the response buffer, `handle_echo` answers 200 with the
-- parameters, up to the first NUL each, as the members of one object, uncut.
pub handle_echo-members :
    (buf : Bytes) (req : Request)
    → length (echo_members buf req.params) + 2 < 32768
    → handle_echo buf req
      ≡ done (record {
        status = 200;
        text = 123 ∷ (echo_members buf req.params ++ (125 ∷ []));
        body_len = length (123 ∷ (echo_members buf req.params ++ (125 ∷ [])));
      })
unfolding handle_echo
handle_echo-members buf req h =
    let all = echo_members buf req.params in
    let finish : Printed → Run Response =
      λ w. done (record { status = 200; text = w.text; body_len = w.pos }) in
    bind_done (print (123 ∷ []) (printed [])) (printed (123 ∷ []))
      (λ w. echo_params buf req.params w >>= λ w₂. print (125 ∷ []) w₂ >>= finish)
      (print-printed [] (123 ∷ []) (omega arith))
    ∙ bind_done (echo_params buf req.params (printed (123 ∷ []))) (printed (123 ∷ all))
        (λ w₂. print (125 ∷ []) w₂ >>= finish)
        (echo_params-printed buf (123 ∷ []) req.params (omega (arith, h)))
    ∙ bind_done (print (125 ∷ []) (printed (123 ∷ all))) (printed (123 ∷ (all ++ (125 ∷ []))))
        finish (print-printed (123 ∷ all) (125 ∷ []) (omega (arith, h)))
