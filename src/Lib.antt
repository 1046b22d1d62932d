-- ===== src/Lib.antt =====
-- Verification of the subscription converter (sub-converter/src): the HTTP server and client, the
-- two converters from the data of a subscription to the YAML document, with the codecs, the link
-- parser and the emitters that they are made of, and the string buffer below them all.
--
-- How the parts interact. `handler_cb` collects a request in a `strbuf` and routes it;
-- `handle_convert` finds a converter by name, fetches the subscription by `httpc_request`, and sends
-- what the converter's `run` makes of it. `conv_base64_run` decodes the data if they look like
-- base64, splits them into lines, parses each line as a share link into a `proxy_node`, makes the
-- names unique and writes the nodes as YAML. `conv_singbox_run` reads nodes and groups from JSON,
-- names them and writes nodes and groups. The link parser uses the percent-decoder, the base64
-- decoder and json-c; the emitters use the quoting rules.
--
-- The files, by the source they model (in sub-converter/src):
--   Buffer              strbuf of util.c, as its clients see it: its contents
--   Strbuf              strbuf of util.c with its block and capacity, and xstrdup
--   Text                utf8_validate, str_trim, str_split, str_replace_all and their like of util.c
--   Converter           converter.c
--   Httpc               httpc.c
--   Server              server.c
--   Base64              base64.c
--   Url                 url_decode and url_encode of util.c
--   Libc                strtol, "%d" and the white space of the C library
--   Model               proxy_node of model.h and node_init
--   Model/Query         parse_query of model.c
--   Model/HostPort      parse_host_port
--   Model/Apply         apply_query, apply_ss_query
--   Model/Name          set_name_from_fragment, set_name_fallback
--   Model/Links         parse_vless_like, parse_method_pass, parse_ss
--   Model/Json          the accessors of jsonx.c, over json-c as the record `JsonC`
--   Model/Vmess         parse_vmess_json, parse_vmess
--   Model/Share         node_parse_share
--   Yaml, Yaml/Quote    yaml_plain_safe and yaml_quote of yaml_emit.c
--   Yaml/Emit           the lines of the document, of yaml_emit.c
--   NodeEmit            node_emit.c
--   ConvBase64          conv_base64.c
--   ConvSingbox         conv_singbox.c, with parse_vless_outbound in ConvSingbox/Outbound
--   Common              lists, tests, results; Tests: runs and instances
-- The modules below these hold the proofs.
--
-- The model. A text is a list of bytes, each a natural number below 256. A function that can
-- return -1 is an `Outcome`: `done` with the result, `failed` for -1, and `fault` for what the C
-- standard leaves undefined: `xstrdup(NULL)`, or a read behind the memory that is passed. A
-- `strbuf` is `none` while its data is NULL, and the list of its bytes once a block is allocated;
-- `Strbuf` has the block itself, and proves that it behaves so;
-- a `size_t` that wraps around is written out where the source can make it do so. Out
-- parameters are results; `free` is left out.
--
-- Fuel. The loop of `parse_query` has one round more than the text has bytes, since each round
-- but the last one moves behind an `&`; `query_loop` takes what a loop gives that uses them up,
-- so that a theorem can say that this is of no matter. The search for a free name has one round
-- more than there are used names, since the candidates differ. `digits_from` has one round more
-- than the number, which is divided by ten each time. The loops that double a capacity have 65
-- rounds, one more than a `size_t` has bits. `utf8_validate` has a round for each byte. All
-- other loops recur on the text.
--
-- Not modelled: memory that runs out, but in `strbuf` and in the body of a response; an `int`
-- suffix above 2^31 - 1; the memory behind a line, since reading there is a fault; the libraries json-c, libcurl and libmicrohttpd (the parameters `JsonC`,
-- `Curl` and `Connection`); the functions that only free memory or call libmicrohttpd to start and
-- stop; jsonx_double and the builders of jsonx.c, which nothing calls; main.c and version.c; and what
-- is no C code.
mod Common
pub mod Buffer
pub mod Strbuf
pub mod Converter
pub mod Text
pub mod Httpc
pub mod Server
pub mod Base64
pub mod Url
pub mod Libc
pub mod Model
pub mod NodeEmit
pub mod ConvBase64
pub mod ConvSingbox
pub mod Yaml
mod Tests
